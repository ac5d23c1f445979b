-- ===== src/Checks.antt =====
-- crates/tx-check: what the checks of a transaction read and answer. The parts of the `bitcoin`
-- crate and the trait `CheckableProof` of the crate `receipts` are parameters.
pub mod Amounts
pub mod AmountLaws
pub mod Conservation
pub mod Isolated
pub mod TransferLaws
pub mod IssueLaws
use lrc.Common.{ℕ, Bool, List}
use lrc.Outcome.{Result}
use lrc.Proof.{ReceiptProof}

-- errors.rs, without the variants of the feature `bulletproof`; `P` is the type of proofs, `PE` that of
-- their errors.
pub data CheckError (P PE : Type 0) : Type 0 where
  invalid_proof : P → ℕ → PE → CheckError P PE
  not_enough_proofs : ℕ → ℕ → CheckError P PE
  not_same_token_pubkey : CheckError P PE
  conservation_rules_violated : CheckError P PE
  input_not_found : CheckError P PE
  proof_mapped_to_not_existing_input_output : CheckError P PE
  announced_amount_does_not_match : ℕ → ℕ → CheckError P PE
  issue_announcement_mismatch : CheckError P PE
  issue_announcement_not_provided : CheckError P PE
  burnt_tokens_spending : CheckError P PE
  amounts_sum_overflow : CheckError P PE
  invalid_p2tr_proof : CheckError P PE
  script_type_mismatch : CheckError P PE
  script_pub_key_not_found : CheckError P PE
  invalid_receipt_key : CheckError P PE
  new_owner_p2tr_address : CheckError P PE
  zero_amount : CheckError P PE

-- `bitcoin::Transaction`, `TxIn` and `TxOut`, as far as the checks read them.
pub record BitcoinTypes : Type 1 where
  pub Tx : Type 0
  pub TxIn : Type 0
  pub TxOut : Type 0
  pub input : Tx → List TxIn
  pub output : Tx → List TxOut
  pub script_pubkey : TxOut → List ℕ

-- The predicates on scripts of the `bitcoin` crate.
pub record ScriptKinds : Type 0 where
  pub is_p2pkh : List ℕ → Bool
  pub is_p2sh : List ℕ → Bool
  pub is_p2wpkh : List ℕ → Bool
  pub is_p2wsh : List ℕ → Bool

-- The trait `CheckableProof` for `ReceiptProof`.
pub record CheckableProof (K V PE TxIn TxOut : Type 0) : Type 0 where
  pub checked_check_by_input : ReceiptProof K V → TxIn → Result PE (Unit {0})
  pub checked_check_by_output : ReceiptProof K V → TxOut → Result PE (Unit {0})

pub record ProofForCheck (K V T : Type 0) : Type 0 where
  pub statement : T
  pub vout : ℕ
  pub inner : ReceiptProof K V
