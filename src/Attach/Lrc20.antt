-- ===== src/Attach/Lrc20.antt =====
-- crates/tx-attach/src/lib.rs: `GraphBuilder`, over the transactions of LRC-20.
use lrc.Common.{ℕ, Bool, if◌then◌else◌, List, [], ◌∷◌, Option, none, some, get_elem?}
use lrc.Outcome.{Result}
use lrc.Keys.{KeyEq}
use lrc.Proof.{ReceiptProof, is_empty_receiptproof}
use lrc.Transaction.{Lrc20Transaction, Lrc20TxType, ProofMap, input_proofs}
use lrc.Attach.{GraphBuilder, Kind}
use lrc.Attach

-- What is sent to the controller.
pub data AttachedMessage (T : Type 0) : Type 0 where
  attached_txs : List T → AttachedMessage T

-- `handle_fully_attached_txs`
unfoldable pub handle_fully_attached_txs : {T : Type 0} → List T → List (AttachedMessage T)
handle_fully_attached_txs [] = []
handle_fully_attached_txs (id ∷ ids) = attached_txs (id ∷ ids) ∷ []

-- The head of the loop of `handle_transfer`: the transactions that are spent with a proof that is
-- not empty. `inputs` are the ids of the spent transactions. A proof for an input that is not there
-- is passed over, as in a build without debug assertions.
unfoldable pub proven_parents : {T P : Type 0} → (P → Bool) → List T → ProofMap P → List T
proven_parents is_empty inputs [] = []
proven_parents is_empty inputs ((vout, proof) ∷ m) =
    let rest = proven_parents is_empty inputs m in
    if is_empty proof
    then rest
    else elim (get_elem? inputs vout) [ none ↦ rest | some id ↦ id ∷ rest ]

abbrev pub Checked : Type 0 → Type 0 → Type 0 → Type 0
Checked Tx K V = Lrc20Transaction Tx K (ReceiptProof K V)

-- `compute_txid` is the id of a Bitcoin transaction, `inputs` are the ids of those that it spends.
module _ {T Tx K V : Type 0} (keys : KeyEq T) (compute_txid : Tx → T) (inputs : Tx → List T)
    (is_stored : T → Option Bool) (order : List T → List T) where
  abbrev pub lrc20_txid : Checked Tx K V → T
  lrc20_txid tx = compute_txid tx.bitcoin_tx

  unfoldable pub lrc20_kind : Checked Tx K V → Kind T
  lrc20_kind tx = elim tx.tx_type [
    | Lrc20TxType.issue proofs announced ↦ Kind.issue
    | Lrc20TxType.transfer input_proofs outputs ↦
        Kind.transfer (proven_parents is_empty_receiptproof (inputs tx.bitcoin_tx) input_proofs)
    | Lrc20TxType.announcement announced ↦ Kind.announcement
    | Lrc20TxType.spark_exit outputs ↦ Kind.spark_exit
  ]

  abbrev pub lrc20_attach_txs :
      ℕ
      → List (Checked Tx K V)
      → GraphBuilder T (Checked Tx K V)
      → Option (
          Result
            (GraphBuilder T (Checked Tx K V))
            (GraphBuilder T (Checked Tx K V) × List (Checked Tx K V)))
  lrc20_attach_txs = Attach.attach_txs keys lrc20_txid lrc20_kind is_stored order
