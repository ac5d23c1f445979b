-- ===== src/Service.antt =====
-- crates/tx-check/src/service.rs: the checks against the storage, of token transactions of Spark, of
-- transfers and of announcements. A query of the storage is `none` where it fails. `K` is the type of keys,
-- `G` of signatures, `A` of addresses of peers, `X` of transactions that exit; hashes are bytes.
pub mod Sums
pub mod SumLaws
pub mod Transfers
pub mod Inputs
pub mod TransferLaws
pub mod Ignored
pub mod Finalization
pub mod FinalizationLaws
pub mod Announcements
pub mod Owned
pub mod Permissions
pub mod AnnouncementLaws
pub mod Supply
pub mod Issues
pub mod IssueLaws
pub mod Freezes
pub mod FreezeLaws
use lrc.Common.{ℕ, Bool, List, Option}
use lrc.Spark.{TokenTransaction}

-- The part of `SparkNodeStorage` that the checks of token transactions ask. Of a spent output only
-- whether there is one is read, of an output its transaction.
pub record SparkStorage (K G : Type 0) : Type 0 where
  pub get_spark_tx_with_outputs : List ℕ → Option (Option (TokenTransaction K G))
  pub get_spent_output : List ℕ → ℕ → Option Bool
  pub get_spark_output_model : List ℕ → Option (Option (List ℕ))

pub data SparkChild (K G X : Type 0) : Type 0 where
  token_tx : TokenTransaction K G → SparkChild K G X
  exit_tx : X → SparkChild K G X

-- The variables of `check_spark_txs` that its checks change, with `spark_queue` of the checker.
pub record SparkBatch (K G A X : Type 0) : Type 0 where
  pub spent_leaves : List (List ℕ × ℕ)
  pub new_leaves : List (List ℕ)
  pub not_found_parents : List (A × List (List ℕ))
  pub spark_queue : List (List ℕ × (SparkChild K G X × ℕ))
