-- ===== src/Service/FinalizationLaws.antt =====
-- When a token transaction counts as finalized or as signed.
use lrc.Common.{ℕ, ◌≤◌, ◌≡◌, List, [], length, arith, ◌↔◌}
use lrc.Keys.{KeyEq}
use lrc.Tables.{contains, extend}
use lrc.Tables.Laws.{contains-extend}
use lrc.Tables.Distinct.{IsDistinct, Among, extend-IsDistinct, IsDistinct-length}
use lrc.Spark.{SparkSignatureData, SparkSignatureLeafData}
use lrc.Service.Finalization.{
  finalized, revocation_secrets, signing_operators, check_spark_tx_finalization,
}

-- Some number of different elements are in the list.
abbrev pub HasDistinct : {K : Type 0} → KeyEq K → ℕ → List K → Type 0
HasDistinct {K} keys n ks = (s : List K) × IsDistinct keys s × Among keys s ks × (n ≤ length s)

module _ {K : Type 0} (keys : KeyEq K) where
  extend-HasDistinct :
      (n : ℕ) (ks : List K) → (n ≤ length (extend keys [] ks)) ↔ HasDistinct keys n ks
  unfolding contains
  extend-HasDistinct n ks = (
    λ enough. (
      extend keys [] ks,
      extend-IsDistinct keys [] ks tt,
      (λ k there. ground (arith, there, contains-extend keys k [] ks)),
      enough,
    ),
    λ (s, distinct, among, enough). omega (
      arith,
      enough,
      IsDistinct-length keys s (extend keys [] ks) distinct
          (λ k there. ground (arith, contains-extend keys k [] ks, among k there)),
    ),
  )

module _ {K G S : Type 0} (keys : KeyEq K) (secrets : KeyEq S) where
  -- A token transaction counts as finalized exactly where three different operators have signed it
  -- and as many different revocation secrets are known as leaves are spent.
  pub check_spark_tx_finalization_lem :
      (tx_leaf_count : ℕ) (signatures : List (SparkSignatureData K G S))
      (signature_leaf_data : List (SparkSignatureLeafData S))
      → (check_spark_tx_finalization keys secrets tx_leaf_count signatures signature_leaf_data
          ≡ finalized)
        ↔ (HasDistinct keys 3 (signing_operators signatures)
            × HasDistinct secrets tx_leaf_count (revocation_secrets signature_leaf_data))
  unfolding check_spark_tx_finalization
  check_spark_tx_finalization_lem n signatures ds =
      let (to_signed, from_signed) = extend-HasDistinct keys 3 (signing_operators signatures) in
      let (to_known, from_known) = extend-HasDistinct secrets n (revocation_secrets ds) in
      (
        λ e. (to_signed (ground (arith, e)), to_known (ground (arith, e))),
        λ (enough, known). ground (arith, from_signed enough, from_known known),
      )
