-- ===== src/Transaction.antt =====
-- crates/types/src/transactions/mod.rs: what a node stores and sends. `Tx` is the type of Bitcoin
-- transactions, `K` that of public keys, `P` that of receipt proofs.
use lrc.Common.{Bool, Option, [], false, none, some, true, ◌||◌, ◌∷◌}
use lrc.Announcements.Issue.{IssueAnnouncement}
use lrc.Announcements.Message.{Announcement}
use lrc.Consensus.Wrappers.{BTreeMap}

abbrev pub ProofMap : Type 0 → Type 0
ProofMap P = BTreeMap P

pub data Lrc20TxType (K P : Type 0) : Type 0 where
  issue : Option (ProofMap P) → IssueAnnouncement K → Lrc20TxType K P
  transfer : ProofMap P → ProofMap P → Lrc20TxType K P
  announcement : Announcement K → Lrc20TxType K P
  spark_exit : ProofMap P → Lrc20TxType K P

pub record Lrc20Transaction (Tx K P : Type 0) : Type 0 where
  pub bitcoin_tx : Tx
  pub tx_type : Lrc20TxType K P

any_burn : {P : Type 0} → (P → Bool) → ProofMap P → Bool
any_burn burns [] = false
any_burn burns ((vout, proof) ∷ m) = burns proof || any_burn burns m

module _ {K P : Type 0} where
  unfoldable pub output_proofs : Lrc20TxType K P → Option (ProofMap P)
  output_proofs (issue proofs a) = proofs
  output_proofs (transfer inputs outputs) = some outputs
  output_proofs (spark_exit outputs) = some outputs
  output_proofs (announcement a) = none

  unfoldable pub input_proofs : Lrc20TxType K P → Option (ProofMap P)
  input_proofs (transfer inputs outputs) = some inputs
  input_proofs _ = none

  -- `Lrc20Transaction::is_burn`, over `is_burn` of the proofs.
  unfoldable pub tx_is_burn : {Tx : Type 0} → (P → Bool) → Lrc20Transaction Tx K P → Bool
  unfolding any_burn output_proofs
  tx_is_burn burns tx = elim (output_proofs tx.tx_type) [ none ↦ false | some m ↦ any_burn burns m ]

  unfoldable pub is_spark_exit : {Tx : Type 0} → Lrc20Transaction Tx K P → Bool
  is_spark_exit tx = elim tx.tx_type [ spark_exit m ↦ true | _ ↦ false ]
