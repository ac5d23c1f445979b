-- ===== src/Service/Sums.antt =====
-- `check_spark_conservation_rules` of crates/tx-check/src/service.rs.
use lrc.Common.{Bool, true, false, List, [], ◌∷◌, Option, none, some}
use lrc.Keys.{KeyEq}
use lrc.Checks.Amounts.{TokenSums, add_to, same_sums}
use lrc.Spark.{TokenLeafOutput}

module _ {K : Type 0} (keys : KeyEq K) where
  -- The loop of `sum_amount_by_token_pubkey`, from the sums so far.
  unfoldable pub sum_leaves : List (TokenLeafOutput K) → TokenSums K → Option (TokenSums K)
  sum_leaves [] m = some m
  sum_leaves (leaf ∷ leaves) m =
      elim (add_to keys leaf.receipt.token_pubkey leaf.receipt.token_amount.amount m) [
        | none ↦ none
        | some m' ↦ sum_leaves leaves m'
      ]

  -- `==` of two optional maps
  unfoldable pub same_option : Option (TokenSums K) → Option (TokenSums K) → Bool
  same_option none none = true
  same_option none (some n) = false
  same_option (some m) none = false
  same_option (some m) (some n) = same_sums keys m n

  unfoldable pub check_spark_conservation_rules :
      List (TokenLeafOutput K) → List (TokenLeafOutput K) → Bool
  check_spark_conservation_rules leaves_to_spend leaves_to_create =
      same_option (sum_leaves leaves_to_spend []) (sum_leaves leaves_to_create [])
