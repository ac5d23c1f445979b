-- ===== src/Service/SumLaws.antt =====
-- What the conservation rule of Spark accepts.
use mathlib.Core.Option.{some-injective}
use lrc.Common.{
  ℕ, ◌+◌, ◌^◌, ◌<◌, ◌≤◌, ◌≡◌, true, if◌then◌else◌, List, [], ◌∷◌, none, some, arith, inl, inr, refl,
  Option-cases, All, subst, ◌↔◌,
}
use lrc.Keys.{KeyEq}
use lrc.Checks.Amounts.{TokenSums, add_to}
use lrc.Checks.AmountLaws.{
  amount_at, add_to_amount, add_to_bounded, add_to-some, add_to-IsSums, IsSums,
}
use lrc.Checks.Conservation.{same_sums-amounts, sums_zero, amounts-same_sums, IsSums-start}
use lrc.Spark.{TokenLeafOutput}
use lrc.Service.Sums.{sum_leaves, same_option, check_spark_conservation_rules}

module _ {K : Type 0} (keys : KeyEq K) where
  -- The amount of a token in leaves, without a bound.
  unfoldable pub leaf_total : K → List (TokenLeafOutput K) → ℕ
  leaf_total k [] = 0
  leaf_total k (leaf ∷ leaves) =
      (if keys.same k leaf.receipt.token_pubkey then leaf.receipt.token_amount.amount else 0)
      + leaf_total k leaves

  sum_leaves-total :
      (leaves : List (TokenLeafOutput K)) (m m' : TokenSums K) (k : K)
      → sum_leaves keys leaves m ≡ some m'
      → amount_at keys k m' ≡ leaf_total k leaves + amount_at keys k m
  unfolding sum_leaves leaf_total
  sum_leaves-total [] m m' k e = ground (arith, e)
  sum_leaves-total (leaf ∷ leaves) m m' k e =
      elim (Option-cases
        (add_to keys leaf.receipt.token_pubkey leaf.receipt.token_amount.amount m)) [
          | inl overflow ↦ ground (arith, e, overflow)
          | inr (n, there) ↦ ground (
            arith,
            add_to_amount keys leaf.receipt.token_pubkey leaf.receipt.token_amount.amount m n k
                there,
            sum_leaves-total leaves n m' k,
          )
        ]

  sum_leaves_bounded :
      (leaves : List (TokenLeafOutput K)) (m m' : TokenSums K) (k : K)
      → sum_leaves keys leaves m ≡ some m'
      → amount_at keys k m < 2 ^ 128
      → amount_at keys k m' < 2 ^ 128
  unfolding sum_leaves
  sum_leaves_bounded [] m m' k e h = ground (arith, e)
  sum_leaves_bounded (leaf ∷ leaves) m m' k e h =
      elim (Option-cases
        (add_to keys leaf.receipt.token_pubkey leaf.receipt.token_amount.amount m)) [
          | inl overflow ↦ ground (arith, e, overflow)
          | inr (n, there) ↦
              let bounded =
                add_to_bounded keys leaf.receipt.token_pubkey leaf.receipt.token_amount.amount m n k
                  there h in
              ground (arith, sum_leaves_bounded leaves n m' k)
        ]

  -- What is summed up is the total, a u128.
  summed :
      (leaves : List (TokenLeafOutput K)) (m : TokenSums K) (k : K)
      → sum_leaves keys leaves [] ≡ some m
      → (amount_at keys k m ≡ leaf_total k leaves) × (leaf_total k leaves < 2 ^ 128)
  summed leaves m k e =
      let start = sums_zero keys k in
      omega (
        arith,
        sum_leaves-total leaves [] m k e,
        sum_leaves_bounded leaves [] m k e (omega (arith, start)),
      )

  sum_leaves-some :
      (leaves : List (TokenLeafOutput K)) (m : TokenSums K)
      → ((k : K) → leaf_total k leaves + amount_at keys k m < 2 ^ 128)
      → (m' : TokenSums K) × (sum_leaves keys leaves m ≡ some m')
  unfolding sum_leaves leaf_total
  sum_leaves-some [] m h = (m, refl)
  sum_leaves-some (leaf ∷ leaves) m h =
      let token = leaf.receipt.token_pubkey in
      let amount = leaf.receipt.token_amount.amount in
      let (n, there) =
        add_to-some keys token amount m (ground (arith, h token, keys.same_refl token)) in
      let (m', rest) =
        sum_leaves-some leaves n
          (λ k. ground (arith, h k, add_to_amount keys token amount m n k there)) in
      (m', ground (arith, there, rest))

  -- A leaf of nothing makes an entry of its own, so the leaves are taken to hold something.
  abbrev pub IsPositive : TokenLeafOutput K → Type 0
  IsPositive leaf = 0 < leaf.receipt.token_amount.amount

  sum_leaves-IsSums :
      (leaves : List (TokenLeafOutput K)) (m m' : TokenSums K)
      → All IsPositive leaves
      → sum_leaves keys leaves m ≡ some m'
      → IsSums keys m
      → IsSums keys m'
  unfolding sum_leaves
  sum_leaves-IsSums [] m m' h e v = subst (IsSums keys) (some-injective m m' e) v
  sum_leaves-IsSums (leaf ∷ leaves) m m' (h, hs) e v =
      elim (Option-cases
        (add_to keys leaf.receipt.token_pubkey leaf.receipt.token_amount.amount m)) [
          | inl overflow ↦ absurd (ground (arith, e, overflow))
          | inr (n, there) ↦ sum_leaves-IsSums leaves n m' hs (ground (arith, e, there)) (
              add_to-IsSums keys leaf.receipt.token_pubkey leaf.receipt.token_amount.amount m n h
                there v)
        ]

  accepted_totals :
      (spent created : List (TokenLeafOutput K)) (m : TokenSums K)
      → sum_leaves keys spent [] ≡ some m
      → check_spark_conservation_rules keys spent created ≡ true
      → (k : K) → leaf_total k spent ≡ leaf_total k created
  unfolding check_spark_conservation_rules same_option
  accepted_totals spent created m e h k = elim (Option-cases (sum_leaves keys created [])) [
    | inl overflow ↦ ground (arith, e, overflow)
    | inr (n, e') ↦
        let same = same_sums-amounts keys m n k (ground (arith, e, e')) in
        omega (arith, same, summed spent m k e, summed created n k e')
  ]

  -- Let all leaves hold something, and let no token's amount in the spent leaves overflow a u128. Then
  -- the conservation rule of Spark accepts exactly where every token has the same amount in the spent
  -- leaves as in the new ones.
  pub check_spark_conservation_rules_lem :
      (spent created : List (TokenLeafOutput K))
      → All IsPositive spent
      → All IsPositive created
      → ((k : K) → leaf_total k spent < 2 ^ 128)
      → (check_spark_conservation_rules keys spent created ≡ true)
        ↔ ((k : K) → leaf_total k spent ≡ leaf_total k created)
  unfolding check_spark_conservation_rules same_option
  check_spark_conservation_rules_lem spent created some_spent some_created fits =
      let (m, e) = sum_leaves-some spent [] (λ k. omega (arith, fits k, sums_zero keys k)) in
      (
        accepted_totals spent created m e,
        λ equal.
            let (n, e') =
              sum_leaves-some created [] (λ k. omega (arith, fits k, equal k, sums_zero keys k)) in
            let same =
              amounts-same_sums keys m n
                (sum_leaves-IsSums spent [] m some_spent e (IsSums-start keys))
                (sum_leaves-IsSums created [] n some_created e' (IsSums-start keys))
                (λ k. omega (arith, equal k, summed spent m k e, summed created n k e')) in
            simp (e, e', same),
      )

  overflows :
      (leaves : List (TokenLeafOutput K)) (k : K)
      → 2 ^ 128 ≤ leaf_total k leaves
      → sum_leaves keys leaves [] ≡ none
  overflows leaves k h = elim (Option-cases (sum_leaves keys leaves [])) [
    | inl overflow ↦ overflow
    | inr (m, e) ↦ absurd (omega (arith, summed leaves m k e))
  ]

  -- The conservation rule of Spark accepts any spent and new leaves where one token's amount overflows
  -- a u128 in the spent ones and one token's, the same or another, in the new ones.
  pub check_spark_conservation_rules_overflow :
      (spent created : List (TokenLeafOutput K)) (j k : K)
      → 2 ^ 128 ≤ leaf_total j spent
      → 2 ^ 128 ≤ leaf_total k created
      → check_spark_conservation_rules keys spent created ≡ true
  unfolding check_spark_conservation_rules same_option
  check_spark_conservation_rules_overflow spent created j k h h' =
      rw (overflows spent j h, overflows created k h') refl
