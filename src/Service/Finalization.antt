-- ===== src/Service/Finalization.antt =====
-- `check_spark_tx_finalization` of crates/tx-check/src/service.rs.
use lrc.Common.{ℕ, ◌==◌, leb, ltb, if◌then◌else◌, List, [], ◌∷◌, none, some, length, map}
use lrc.Keys.{KeyEq}
use lrc.Tables.{extend}
use lrc.Spark.{SparkSignatureData, SparkSignatureLeafData}

-- crates/types/src/spark/mod.rs
pub data TokenTransactionStatus : Type 0 where
  started : TokenTransactionStatus
  signed : TokenTransactionStatus
  finalized : TokenTransactionStatus

-- `SPARK_THRESHOLD` of crates/types/src/spark/signature.rs
abbrev pub spark_threshold : ℕ
spark_threshold = 3

-- The secrets that are there.
unfoldable pub revocation_secrets : {S : Type 0} → List (SparkSignatureLeafData S) → List S
revocation_secrets [] = []
revocation_secrets (leaf_data ∷ ds) = elim leaf_data.revocation_secret [
  | none ↦ revocation_secrets ds
  | some secret ↦ secret ∷ revocation_secrets ds
]

-- The operators that signed.
abbrev pub signing_operators : {K G S : Type 0} → List (SparkSignatureData K G S) → List K
signing_operators signatures = map (λ s. s.operator_pubkey) signatures

unfoldable pub check_spark_tx_finalization :
    {K G S : Type 0}
    → KeyEq K
    → KeyEq S
    → ℕ
    → List (SparkSignatureData K G S)
    → List (SparkSignatureLeafData S)
    → TokenTransactionStatus
check_spark_tx_finalization keys secrets tx_leaf_count signatures signature_leaf_data =
    let count = length (extend keys [] (signing_operators signatures)) in
    let revocation_keys = length (extend secrets [] (revocation_secrets signature_leaf_data)) in
    if tx_leaf_count == 0
    then (if leb spark_threshold count then finalized else started)
    else (if ltb count spark_threshold
        then started
        else (if leb tx_leaf_count revocation_keys then finalized else signed))
