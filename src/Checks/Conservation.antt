-- ===== src/Checks/Conservation.antt =====
-- When the conservation rule accepts.
use lrc.Common.{
  ap, ℕ, ◌<◌, ◌≡◌, true, [], ◌∷◌, some, refl, Bool-cases, List, Option-cases, arith, inl, inr, map,
  sym, ◌^◌, ◌↔◌,
}
use lrc.Keys.{KeyEq}
use lrc.Checks.Amounts.{
  TokenSums, get, included, same_sums, check_conservation_rules, has_sum,
  sum_amount_by_token_pubkey, sum_from,
}
use lrc.Checks.AmountLaws.{
  amount_at, IsSums, sum_from-IsSums, sum_from-total, sum_from_bounded, sum_from-some, total,
}
use lrc.Outcome.{>>=-eq-ok, ok_or-eq-ok, ok, ok_or}
use lrc.Checks.{ProofForCheck, CheckError}
use lrc.Proof.{ReceiptProof}

module _ {K : Type 0} (keys : KeyEq K) where
  open keys use {same, same_refl, same→eq}

  has_sum→get :
      (n : TokenSums K) (k : K) (s : ℕ) → has_sum keys n k s ≡ true → get keys k n ≡ some s
  has_sum→get n k s h = elim (Option-cases (get keys k n)) [
    | inl e ↦ ground (arith, e, h)
    | inr (t, e) ↦ ground (arith, e, h)
  ]

  get→has_sum :
      (n : TokenSums K) (k : K) (s : ℕ) → get keys k n ≡ some s → has_sum keys n k s ≡ true
  get→has_sum n k s e = ground (arith, e)

  included-get :
      (m n : TokenSums K) (k : K) (s : ℕ)
      → included keys m n ≡ true
      → get keys k m ≡ some s
      → get keys k n ≡ some s
  unfolding included get
  included-get [] n k s i e = cc
  included-get ((j, t) ∷ m) n k s i e =
      let found : get keys j n ≡ some t = has_sum→get n j t (ground (arith, i)) in
      elim (Bool-cases (same k j)) [
        | inl k_j ↦
            let eq = same→eq k j k_j in ground (arith, e, k_j, found, ap (λ z. get keys z n) eq)
        | inr k_j ↦ included-get m n k s (ground (arith, i)) (ground (arith, e, k_j))
      ]

  get-included :
      (m n : TokenSums K)
      → IsSums keys m
      → ((k : K) (s : ℕ) → get keys k m ≡ some s → get keys k n ≡ some s)
      → included keys m n ≡ true
  unfolding included get IsSums
  get-included [] n v h = refl
  get-included ((j, t) ∷ m) n v h =
      let found = get→has_sum n j t (h j t (ground (arith, same_refl j))) in
      let rest = get-included m n v.2 (λ k s e. elim (Bool-cases (same k j)) [
        | inl k_j ↦ let eq = ap (λ z. get keys z m) (same→eq k j k_j) in let no = v.1 in cc
        | inr k_j ↦ h k s (ground (arith, e, k_j))
      ]) in
      ground (arith, found, rest)

  get_positive : (m : TokenSums K) (k : K) (s : ℕ) → IsSums keys m → get keys k m ≡ some s → 0 < s
  unfolding get IsSums
  get_positive [] k s v e = cc
  get_positive ((j, t) ∷ m) k s v e = elim (Bool-cases (same k j)) [
    | inl k_j ↦ ground (arith, e, k_j, v.0)
    | inr k_j ↦ get_positive m k s v.2 (ground (arith, e, k_j))
  ]

  pub same_sums-amounts :
      (m n : TokenSums K) (k : K)
      → same_sums keys m n ≡ true
      → amount_at keys k m ≡ amount_at keys k n
  unfolding same_sums amount_at
  same_sums-amounts m n k h =
      let m_n : included keys m n ≡ true = ground (arith, h) in
      let n_m : included keys n m ≡ true = ground (arith, h) in
      elim (Option-cases (get keys k m)) [
        | inr (s, e) ↦ ground (arith, e, included-get m n k s m_n e)
        | inl e ↦ elim (Option-cases (get keys k n)) [
          | inl e' ↦ ground (arith, e, e')
          | inr (s, e') ↦ ground (arith, e, included-get n m k s n_m e')
        ]
      ]

  amounts_get :
      (m n : TokenSums K) (k : K) (s : ℕ)
      → IsSums keys m
      → amount_at keys k m ≡ amount_at keys k n
      → get keys k m ≡ some s
      → get keys k n ≡ some s
  unfolding amount_at
  amounts_get m n k s v h e =
      let positive = get_positive m k s v e in
      elim (Option-cases (get keys k n)) [
        | inl e' ↦ ground (arith, h, e, e', positive)
        | inr (t, e') ↦ ground (arith, h, e, e')
      ]

  pub amounts-same_sums :
      (m n : TokenSums K)
      → IsSums keys m
      → IsSums keys n
      → ((k : K) → amount_at keys k m ≡ amount_at keys k n)
      → same_sums keys m n ≡ true
  unfolding same_sums
  amounts-same_sums m n vm vn h =
      let m_n = get-included m n vm (λ k s e. amounts_get m n k s vm (h k) e) in
      let n_m = get-included n m vn (λ k s e. amounts_get n m k s vn (sym (h k)) e) in
      ground (arith, m_n, n_m)

  pub IsSums-start : IsSums keys []
  unfolding IsSums
  IsSums-start = tt

  pub sums_zero : (k : K) → amount_at keys k [] ≡ 0
  unfolding amount_at get
  sums_zero k = refl

abbrev pub inners : {K V T : Type 0} → List (ProofForCheck K V T) → List (ReceiptProof K V)
inners ps = map (λ p. p.inner) ps

module _ {K V PE S T : Type 0} (keys : KeyEq K) (zero_key : K) where
  -- The conservation rule accepts exactly where every token has the same amount in the proofs of the
  -- inputs as in those of the outputs, and that amount is a u128.
  pub check_conservation_rules_lem :
      (inputs : List (ProofForCheck K V S)) (outputs : List (ProofForCheck K V T))
      → (check_conservation_rules keys zero_key {PE = PE} inputs outputs ≡ ok tt) ↔ (
          (k : K)
          → (total keys zero_key k (inners inputs) ≡ total keys zero_key k (inners outputs))
            × (total keys zero_key k (inners inputs) < 2 ^ 128))
  unfolding check_conservation_rules sum_amount_by_token_pubkey
  check_conservation_rules_lem inputs outputs = (
    (λ e k.
        let (m, input_sums, rest) =
          >>=-eq-ok
            (ok_or (sum_from keys zero_key (inners inputs) []) CheckError.amounts_sum_overflow) _
            e in
        let (n, output_sums, same) =
          >>=-eq-ok
            (ok_or (sum_from keys zero_key (inners outputs) []) CheckError.amounts_sum_overflow) _
            rest in
        let in_sums = ok_or-eq-ok _ CheckError.amounts_sum_overflow input_sums in
        let out_sums = ok_or-eq-ok _ CheckError.amounts_sum_overflow output_sums in
        let start = sums_zero keys k in
        let in_total = sum_from-total keys zero_key (inners inputs) [] m k in_sums in
        let out_total = sum_from-total keys zero_key (inners outputs) [] n k out_sums in
        let bounded =
          sum_from_bounded keys zero_key (inners inputs) [] m k in_sums (omega (arith, start)) in
        let equal = same_sums-amounts keys m n k (ground (arith, same)) in
        (omega (arith, in_total, out_total, equal), omega (arith, in_total, bounded, start))),
    (λ h.
        let (m, in_sums) =
          sum_from-some keys zero_key (inners inputs) []
            (λ k. omega (arith, sums_zero keys k, (h k).1)) in
        let (n, out_sums) =
          sum_from-some keys zero_key (inners outputs) []
            (λ k. omega (arith, sums_zero keys k, (h k).0, (h k).1)) in
        let equal =
          amounts-same_sums keys m n
            (sum_from-IsSums keys zero_key (inners inputs) [] m in_sums (IsSums-start keys))
            (sum_from-IsSums keys zero_key (inners outputs) [] n out_sums (IsSums-start keys))
            (λ k. omega (
              arith,
              (h k).0,
              sum_from-total keys zero_key (inners inputs) [] m k in_sums,
              sum_from-total keys zero_key (inners outputs) [] n k out_sums,
            )) in
        simp (in_sums, out_sums, equal)),
  )
