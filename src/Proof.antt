-- ===== src/Proof.antt =====
-- crates/receipts/src/proof.rs and the data of crates/receipts/src/proof: the proofs of ownership, for
-- the build without the feature `bulletproof`. `K` is the type of public keys, `V` that of JSON values.
pub mod Metadata
pub mod Wire
pub mod WireLaws
use lrc.Common.{ℕ, Bool, List, Option, [], false, none, true, ◌∷◌}
use lrc.Receipt.{Receipt, empty}

-- proof/empty
pub record EmptyReceiptProof (K : Type 0) : Type 0 where
  pub inner_key : K

-- proof/p2wpkh, also called `SigReceiptProof`
pub record P2wpkhProof (K V : Type 0) : Type 0 where
  pub receipt : Receipt K
  pub inner_key : K
  pub metadata : Option V

-- proof/p2wsh; a script is its bytes.
pub record P2wshProof (K : Type 0) : Type 0 where
  pub receipt : Receipt K
  pub inner_key : K
  pub script : List ℕ

-- proof/p2tr
pub record TaprootProof (K V : Type 0) : Type 0 where
  pub receipt : Receipt K
  pub inner_key : K
  pub metadata : Option V

-- proof/common/multisig
pub record MultisigReceiptProof (K : Type 0) : Type 0 where
  pub receipt : Receipt K
  pub inner_keys : List K
  pub m : ℕ

-- proof/common/lightning/commitment
pub record ToLocalScript (K : Type 0) : Type 0 where
  pub revocation_pubkey : K
  pub to_self_delay : ℕ
  pub local_delayed_pubkey : K

pub record LightningCommitmentProof (K : Type 0) : Type 0 where
  pub receipt : Receipt K
  pub to_local : ToLocalScript K

-- proof/common/lightning/htlc; a hash160 is its 20 bytes.
pub data HtlcScriptKind : Type 0 where
  offered : HtlcScriptKind
  received : ℕ → HtlcScriptKind

pub record LightningHtlcData (K : Type 0) : Type 0 where
  pub revocation_key_hash : List ℕ
  pub remote_htlc_key : K
  pub local_htlc_key : K
  pub payment_hash : List ℕ
  pub kind : HtlcScriptKind

pub record LightningHtlcProof (K : Type 0) : Type 0 where
  pub receipt : Receipt K
  pub htlc : LightningHtlcData K

-- proof/spark/exit
pub record SparkExitScript (K : Type 0) : Type 0 where
  pub revocation_key : K
  pub delay_key : K
  pub locktime : ℕ

pub record SparkExitProof (K V : Type 0) : Type 0 where
  pub receipt : Receipt K
  pub script : SparkExitScript K
  pub metadata : Option V

pub data ReceiptProof (K V : Type 0) : Type 0 where
  empty_receipt : EmptyReceiptProof K → ReceiptProof K V
  sig : P2wpkhProof K V → ReceiptProof K V
  multisig : MultisigReceiptProof K → ReceiptProof K V
  lightning : LightningCommitmentProof K → ReceiptProof K V
  lightning_htlc : LightningHtlcProof K → ReceiptProof K V
  p2wsh : P2wshProof K → ReceiptProof K V
  p2tr : TaprootProof K V → ReceiptProof K V
  spark_exit : SparkExitProof K V → ReceiptProof K V

module _ {K V : Type 0} where
  unfoldable pub metadata_of : ReceiptProof K V → Option V
  metadata_of (sig proof) = proof.metadata
  metadata_of (p2tr proof) = proof.metadata
  metadata_of _ = none

  unfoldable pub is_empty_receiptproof : ReceiptProof K V → Bool
  is_empty_receiptproof (empty_receipt proof) = true
  is_empty_receiptproof _ = false

  -- Keys that could spend the output.
  unfoldable pub spender_keys : ReceiptProof K V → List K
  spender_keys (sig proof) = proof.inner_key ∷ []
  spender_keys (multisig proof) = proof.inner_keys
  spender_keys (p2tr proof) = proof.inner_key ∷ []
  spender_keys (lightning proof) =
      proof.to_local.revocation_pubkey ∷ proof.to_local.local_delayed_pubkey ∷ []
  spender_keys (lightning_htlc proof) = proof.htlc.remote_htlc_key ∷ proof.htlc.local_htlc_key ∷ []
  spender_keys (empty_receipt proof) = proof.inner_key ∷ []
  spender_keys (p2wsh proof) = proof.inner_key ∷ []
  spender_keys (spark_exit proof) = proof.script.delay_key ∷ []

-- `zero_key` is `ZERO_PUBLIC_KEY`, the key whose 33 bytes are all 2, which the source has from the
-- parser of keys.
module _ {K V : Type 0} (zero_key : K) where
  unfoldable pub receipt_of : ReceiptProof K V → Receipt K
  receipt_of (sig proof) = proof.receipt
  receipt_of (p2wsh proof) = proof.receipt
  receipt_of (p2tr proof) = proof.receipt
  receipt_of (empty_receipt proof) = empty zero_key
  receipt_of (multisig proof) = proof.receipt
  receipt_of (lightning proof) = proof.receipt
  receipt_of (lightning_htlc proof) = proof.receipt
  receipt_of (spark_exit proof) = proof.receipt

  unfoldable pub amount : ReceiptProof K V → ℕ
  unfolding receipt_of
  amount proof = (receipt_of proof).token_amount.amount

  -- `same` is the equality of keys.
  unfoldable pub is_burn : (K → K → Bool) → ReceiptProof K V → Bool
  is_burn same (sig inner) = same inner.inner_key zero_key
  is_burn same _ = false
