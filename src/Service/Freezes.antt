-- ===== src/Service/Freezes.antt =====
-- `check_transfer` of crates/tx-check/src/service.rs, with the freezes of outputs and keys.
use lrc.Common.{
  ℕ, Bool, true, false, ◌||◌, if◌then◌else◌, List, [], ◌∷◌, ◌++◌, Option, none, some, get_elem?,
}
use lrc.Outcome.{Result, ok, ◌>>=◌, ok_or}
use lrc.Keys.{KeyEq}
use lrc.Proof.{
  ReceiptProof, TaprootProof, p2tr, empty_receipt, sig, multisig, lightning, lightning_htlc, p2wsh,
  spark_exit, receipt_of, spender_keys,
}
use lrc.Transaction.{ProofMap}
use lrc.Tables.{get, put, or_empty}
use lrc.Owner.{TokenPubkeyInfo, TxIn}
use lrc.Service.Announcements.{allows_freezes}

-- The queries of the storage, each of which may fail; of a stored transaction only whether there is
-- one is read. `get_raw_transaction` of the Bitcoin client has the scripts of the outputs, and
-- `check_p2tr_proof` is that of isolated_checks.rs.
pub record TransferStorage (K V : Type 0) : Type 0 where
  pub get_token_pubkey_info : K → Option (Option (TokenPubkeyInfo K))
  pub is_proof_frozen : List ℕ → ℕ → Option Bool
  pub is_pubkey_frozen : K → K → Option Bool
  pub get_lrc20_transaction_by_id : List ℕ → Option Bool
  pub get_raw_transaction : List ℕ → Option (List (List ℕ))
  pub check_p2tr_proof : List ℕ → TaprootProof K V → Bool

pub data TransferFailure : Type 0 where
  query_failed : TransferFailure
  input_not_found : TransferFailure

module _ {K V : Type 0} (zero_key : K) (storage : TransferStorage K V) where
  abbrev pub token_of : ReceiptProof K V → K
  token_of proof = (receipt_of zero_key proof).token_pubkey

  unfoldable pub is_output_frozen : TxIn → ReceiptProof K V → Result TransferFailure Bool
  is_output_frozen parent proof = do
    info ← ok_or (storage.get_token_pubkey_info (token_of proof)) query_failed
    let frozen = ok_or (storage.is_proof_frozen parent.txid parent.vout) query_failed
    if allows_freezes info then frozen else ok false

  -- The loop over the keys: the first frozen one.
  unfoldable pub first_frozen : K → List K → Result TransferFailure (Option K)
  first_frozen token [] = ok none
  first_frozen token (pubkey ∷ pubkeys) = do
    is_pubkey_frozen ← ok_or (storage.is_pubkey_frozen pubkey token) query_failed
    let rest = first_frozen token pubkeys
    if is_pubkey_frozen then ok (some pubkey) else rest

  unfoldable pub is_sender_frozen : ReceiptProof K V → Result TransferFailure (Option K)
  is_sender_frozen proof = do
    info ← ok_or (storage.get_token_pubkey_info (token_of proof)) query_failed
    let frozen = first_frozen (token_of proof) (spender_keys proof)
    if allows_freezes info then frozen else ok none

  unfoldable pub is_p2tr_proof_valid : TaprootProof K V → TxIn → Bool
  is_p2tr_proof_valid taproot_proof parent = elim (storage.get_raw_transaction parent.txid) [
    | none ↦ false
    | some outputs ↦ elim (get_elem? outputs parent.vout) [
      | none ↦ false
      | some script ↦ storage.check_p2tr_proof script taproot_proof
    ]
  ]

  -- The test of the proof, where it is a Taproot proof.
  unfoldable pub passes_p2tr : ReceiptProof K V → TxIn → Bool
  passes_p2tr (p2tr proof) parent = is_p2tr_proof_valid proof parent
  passes_p2tr (empty_receipt proof) parent = true
  passes_p2tr (sig proof) parent = true
  passes_p2tr (multisig proof) parent = true
  passes_p2tr (lightning proof) parent = true
  passes_p2tr (lightning_htlc proof) parent = true
  passes_p2tr (p2wsh proof) parent = true
  passes_p2tr (spark_exit proof) parent = true

  module _ {A T : Type 0} (peers : KeyEq A) (txids : KeyEq (List ℕ)) (sender : Option A)
      (checked_txs : List (List ℕ × T)) where
    abbrev pub is_checked : Option T → Bool
    is_checked none = false
    is_checked (some tx) = true

    -- A parent that is neither stored nor checked is asked for at the sender.
    unfoldable pub ask_for_parent :
        List ℕ → Bool → List (A × List (List ℕ)) → List (A × List (List ℕ))
    ask_for_parent txid is_in_storage not_found_parents =
        if is_in_storage || is_checked (get txids txid checked_txs)
        then not_found_parents
        else elim sender [
          | none ↦ not_found_parents
          | some peer ↦
              put peers peer (or_empty (get peers peer not_found_parents) ++ (txid ∷ []))
                not_found_parents
        ]

    -- The body of the loop behind the frozen output and sender.
    unfoldable pub check_parent :
        TxIn
        → ReceiptProof K V
        → List (A × List (List ℕ))
        → Result TransferFailure (Bool × List (A × List (List ℕ)))
    check_parent parent proof not_found_parents =
        let asked =
          ok_or (storage.get_lrc20_transaction_by_id parent.txid) query_failed >>= λ is_in_storage.
          ok (true, ask_for_parent parent.txid is_in_storage not_found_parents) in
        if passes_p2tr proof parent then asked else ok (false, not_found_parents)

    -- The body of the loop over the proofs of the inputs.
    unfoldable pub check_transfer_input :
        List TxIn
        → ℕ
        → ReceiptProof K V
        → List (A × List (List ℕ))
        → Result TransferFailure (Bool × List (A × List (List ℕ)))
    check_transfer_input inputs parent_id proof not_found_parents = do
      parent ← ok_or (get_elem? inputs parent_id) input_not_found
      frozen ← is_output_frozen parent proof
      let sent = is_sender_frozen proof >>= λ frozen_key. elim frozen_key [
        | none ↦ check_parent parent proof not_found_parents
        | some key ↦ ok (false, not_found_parents)
      ]
      if frozen then ok (false, not_found_parents) else sent

    unfoldable pub check_transfer :
        List TxIn
        → ProofMap (ReceiptProof K V)
        → List (A × List (List ℕ))
        → Result TransferFailure (Bool × List (A × List (List ℕ)))
    check_transfer inputs [] not_found_parents = ok (true, not_found_parents)
    check_transfer inputs ((parent_id, proof) ∷ proofs) not_found_parents = do
      (is_valid, unknown) ← check_transfer_input inputs parent_id proof not_found_parents
      let rest = check_transfer inputs proofs unknown
      if is_valid then rest else ok (false, unknown)
