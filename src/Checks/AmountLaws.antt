-- ===== src/Checks/AmountLaws.antt =====
-- Sums by token are the totals, and the conservation rule compares the totals.
use lrc.Common.{
  subst, sym, lt→ltb, ap, ℕ, ◌+◌, ◌^◌, ◌<◌, ◌≡◌, if◌then◌else◌, [], ◌∷◌, none, some, arith,
  Bool-cases, Option-cases, false, inl, inr, true, List, Option, refl,
}
use lrc.Keys.{KeyEq}
use lrc.Checks.Amounts.{
  checked_add, TokenSums, get, add_to, is_skipped, put_back, put_sum, sum_from,
}
use lrc.Proof.{ReceiptProof, is_empty_receiptproof, receipt_of}

module _ {K : Type 0} (keys : KeyEq K) where
  open keys use {same, same_refl, same→eq}

  -- The sum of a token, 0 where there is none.
  unfoldable pub amount_at : K → TokenSums K → ℕ
  amount_at k m = elim (get keys k m) [ none ↦ 0 | some s ↦ s ]

  unfoldable pub IsSums : TokenSums K → Type 0
  IsSums [] = Unit
  IsSums ((k, s) ∷ m) = (0 < s) × (get keys k m ≡ none) × IsSums m

  different : (j k i : K) → same j i ≡ true → same k i ≡ false → same j k ≡ false
  different j k i t f = elim (Bool-cases (same j k)) [
    | inl e ↦ let eq = ap (λ x. same x i) (same→eq j k e) in cc
    | inr e ↦ e
  ]

  pub add_to_amount :
      (k : K) (a : ℕ) (m m' : TokenSums K) (j : K)
      → add_to keys k a m ≡ some m'
      → amount_at j m' ≡ (if same j k then a else 0) + amount_at j m
  unfolding amount_at add_to get checked_add
  add_to_amount k a [] m' j e = ground (arith, e)
  add_to_amount k a ((i, s) ∷ m) m' j e = elim (Bool-cases (same k i)) [
    | inl h ↦ ground (arith, e, ap (same j) (same→eq k i h))
    | inr h ↦ elim (Option-cases (add_to keys k a m)) [
      | inl none_left ↦ ground (arith, e, none_left)
      | inr (m'', there) ↦ elim (Bool-cases (same j i)) [
        | inl j_i ↦
            let other : same j k ≡ false = different j k i j_i h in
            ground (arith, e, there, j_i, other)
        | inr j_i ↦ let rec = add_to_amount k a m m'' j there in ground (arith, e, there, j_i, rec)
      ]
    ]
  ]

  pub add_to-some :
      (k : K) (a : ℕ) (m : TokenSums K)
      → amount_at k m + a < 2 ^ 128
      → (m' : TokenSums K) × (add_to keys k a m ≡ some m')
  unfolding amount_at add_to get checked_add
  add_to-some k a [] h =
      let fits = lt→ltb a (2 ^ 128) (omega (arith, h)) in ((k, a) ∷ [], ground (arith, fits))
  add_to-some k a ((i, s) ∷ m) h = elim (Bool-cases (same k i)) [
    | inl e ↦
        let fits = lt→ltb (s + a) (2 ^ 128) (ground (arith, e, h)) in
        ((i, s + a) ∷ m, ground (arith, e, fits))
    | inr e ↦
        let rec = add_to-some k a m (ground (arith, e, h)) in
        ((i, s) ∷ rec.0, ground (arith, e, rec.1))
  ]

  pub add_to_bounded :
      (k : K) (a : ℕ) (m m' : TokenSums K) (j : K)
      → add_to keys k a m ≡ some m'
      → amount_at j m < 2 ^ 128
      → amount_at j m' < 2 ^ 128
  unfolding amount_at add_to get checked_add
  add_to_bounded k a [] m' j e h = ground (arith, e)
  add_to_bounded k a ((i, s) ∷ m) m' j e h = elim (Bool-cases (same k i)) [
    | inl k_i ↦ ground (arith, e, k_i, h)
    | inr k_i ↦ elim (Option-cases (add_to keys k a m)) [
      | inl none_left ↦ ground (arith, e, none_left)
      | inr (m'', there) ↦ elim (Bool-cases (same j i)) [
        | inl j_i ↦ ground (arith, e, there, h, j_i)
        | inr j_i ↦
            let rec = add_to_bounded k a m m'' j there (ground (arith, h, j_i)) in
            ground (arith, e, there, j_i, rec)
      ]
    ]
  ]

  get-add_to-none :
      (k : K) (a : ℕ) (m m' : TokenSums K) (j : K)
      → add_to keys k a m ≡ some m'
      → same j k ≡ false
      → get keys j m ≡ none
      → get keys j m' ≡ none
  unfolding add_to get checked_add
  get-add_to-none k a [] m' j e d h = ground (arith, e, d)
  get-add_to-none k a ((i, s) ∷ m) m' j e d h = elim (Bool-cases (same k i)) [
    | inl k_i ↦ ground (arith, e, k_i, h)
    | inr k_i ↦ elim (Option-cases (add_to keys k a m)) [
      | inl none_left ↦ ground (arith, e, none_left)
      | inr (m'', there) ↦ elim (Bool-cases (same j i)) [
        | inl j_i ↦ ground (arith, h, j_i)
        | inr j_i ↦
            let rec = get-add_to-none k a m m'' j there d (ground (arith, h, j_i)) in
            ground (arith, e, there, j_i, rec)
      ]
    ]
  ]

  apart : (k i : K) → same k i ≡ false → same i k ≡ false
  apart k i f = elim (Bool-cases (same i k)) [
    | inl e ↦ let eq = same→eq i k e in let r = same_refl i in let x = ap (λ z. same z i) eq in cc
    | inr e ↦ e
  ]

  put_sum-eq-some :
      (k : K) (a b : ℕ) (m m' : TokenSums K)
      → put_sum keys k (checked_add a b) m ≡ some m'
      → m' ≡ (k, a + b) ∷ m
  unfolding checked_add
  put_sum-eq-some k a b m m' e = ground (arith, e)

  put_back-eq-some :
      (p : K × ℕ) (o : Option (TokenSums K)) (m' : TokenSums K)
      → put_back keys p o ≡ some m'
      → (m : TokenSums K) × (o ≡ some m) × (m' ≡ p ∷ m)
  put_back-eq-some p none m' e = cc
  put_back-eq-some p (some m) m' e = (m, refl, cc)

  pub add_to-IsSums :
      (k : K) (a : ℕ) (m m' : TokenSums K)
      → 0 < a
      → add_to keys k a m ≡ some m'
      → IsSums m
      → IsSums m'
  unfolding add_to IsSums checked_add get
  add_to-IsSums k a [] m' pos e v =
      subst IsSums (sym (put_sum-eq-some k 0 a [] m' e)) (omega (arith, pos), refl, tt)
  add_to-IsSums k a ((i, s) ∷ m) m' pos e v = elim (Bool-cases (same k i)) [
    | inl k_i ↦
        let here = put_sum-eq-some i s a m m' (simp (k_i) at e) in
        subst IsSums (sym here) (omega (arith, v.0), v.1, v.2)
    | inr k_i ↦
        let rest = put_back-eq-some (i, s) (add_to keys k a m) m' (simp (k_i) at e) in
        subst IsSums (sym rest.2) (
          v.0,
          get-add_to-none k a m rest.0 i rest.1 (apart k i k_i) v.1,
          add_to-IsSums k a m rest.0 pos rest.1 v.2,
        )
  ]

module _ {K V : Type 0} (keys : KeyEq K) (zero_key : K) where
  open keys use {same, same_refl, same→eq}

  -- What a proof adds to the amount of a token.
  unfoldable share : K → ReceiptProof K V → ℕ
  share k p =
      if is_empty_receiptproof p
      then 0
      else if same k (receipt_of zero_key p).token_pubkey
      then (receipt_of zero_key p).token_amount.amount
      else 0

  -- The amount of a token in a list of proofs, without a bound.
  unfoldable pub total : K → List (ReceiptProof K V) → ℕ
  unfolding share
  total k [] = 0
  total k (p ∷ ps) = share k p + total k ps

  share_skipped : (k : K) (p : ReceiptProof K V) → is_skipped keys zero_key p ≡ true → share k p ≡ 0
  unfolding share is_skipped
  share_skipped k p h = ground (arith, h)

  share_kept :
      (k : K) (p : ReceiptProof K V)
      → is_skipped keys zero_key p ≡ false
      → (share k p ≡ (
          if same k (receipt_of zero_key p).token_pubkey
          then (receipt_of zero_key p).token_amount.amount
          else 0))
        × (0 < (receipt_of zero_key p).token_amount.amount)
  unfolding share is_skipped
  share_kept k p h = (ground (arith, h), ground (arith, h))

  added : ReceiptProof K V → TokenSums K → Option (TokenSums K)
  added p m =
      add_to keys (receipt_of zero_key p).token_pubkey (receipt_of zero_key p).token_amount.amount m

  sum_from_kept :
      (p : ReceiptProof K V) (ps : List (ReceiptProof K V)) (m m' : TokenSums K)
      → is_skipped keys zero_key p ≡ false
      → sum_from keys zero_key (p ∷ ps) m ≡ some m'
      → (n : TokenSums K) × (added p m ≡ some n) × (sum_from keys zero_key ps n ≡ some m')
  unfolding sum_from added
  sum_from_kept p ps m m' kept e = elim (Option-cases (added p m)) [
    | inl overflow ↦ cc (simp (kept, overflow) at e)
    | inr (n, there) ↦ (n, there, simp (kept, there) at e)
  ]

  pub sum_from-total :
      (ps : List (ReceiptProof K V)) (m m' : TokenSums K) (k : K)
      → sum_from keys zero_key ps m ≡ some m'
      → amount_at keys k m' ≡ amount_at keys k m + total k ps
  unfolding sum_from total added
  sum_from-total [] m m' k e = ground (arith, e)
  sum_from-total (p ∷ ps) m m' k e = elim (Bool-cases (is_skipped keys zero_key p)) [
    | inl skip ↦ omega (arith, share_skipped k p skip, sum_from-total ps m m' k (simp (skip) at e))
    | inr kept ↦
        let (n, there, rest) = sum_from_kept p ps m m' kept e in
        omega (
          arith,
          (share_kept k p kept).0,
          add_to_amount keys _ _ m n k there,
          sum_from-total ps n m' k rest,
        )
  ]

  pub sum_from-IsSums :
      (ps : List (ReceiptProof K V)) (m m' : TokenSums K)
      → sum_from keys zero_key ps m ≡ some m'
      → IsSums keys m
      → IsSums keys m'
  unfolding sum_from added
  sum_from-IsSums [] m m' e v = let same_map : m ≡ m' = cc in subst (IsSums keys) same_map v
  sum_from-IsSums (p ∷ ps) m m' e v = elim (Bool-cases (is_skipped keys zero_key p)) [
    | inl skip ↦ sum_from-IsSums ps m m' (simp (skip) at e) v
    | inr kept ↦
        let (n, there, rest) = sum_from_kept p ps m m' kept e in
        sum_from-IsSums ps n m' rest
          (add_to-IsSums keys _ _ m n (share_kept zero_key p kept).1 there v)
  ]

  pub sum_from_bounded :
      (ps : List (ReceiptProof K V)) (m m' : TokenSums K) (k : K)
      → sum_from keys zero_key ps m ≡ some m'
      → amount_at keys k m < 2 ^ 128
      → amount_at keys k m' < 2 ^ 128
  unfolding sum_from added
  sum_from_bounded [] m m' k e h = ground (arith, e, h)
  sum_from_bounded (p ∷ ps) m m' k e h = elim (Bool-cases (is_skipped keys zero_key p)) [
    | inl skip ↦ sum_from_bounded ps m m' k (simp (skip) at e) h
    | inr kept ↦
        let (n, there, rest) = sum_from_kept p ps m m' kept e in
        sum_from_bounded ps n m' k rest (add_to_bounded keys _ _ m n k there h)
  ]

  pub sum_from-some :
      (ps : List (ReceiptProof K V)) (m : TokenSums K)
      → ((k : K) → amount_at keys k m + total k ps < 2 ^ 128)
      → (m' : TokenSums K) × (sum_from keys zero_key ps m ≡ some m')
  unfolding sum_from total added
  sum_from-some [] m h = (m, refl)
  sum_from-some (p ∷ ps) m h = elim (Bool-cases (is_skipped keys zero_key p)) [
    | inl skip ↦
        let rec = sum_from-some ps m (λ k. omega (arith, h k, share_skipped k p skip)) in
        (rec.0, simp (skip, rec.1))
    | inr kept ↦
        let k = (receipt_of zero_key p).token_pubkey in
        let a = (receipt_of zero_key p).token_amount.amount in
        let mine : share k p ≡ a = ground (arith, same_refl k, (share_kept k p kept).0) in
        let (n, there) = add_to-some keys k a m (omega (arith, h k, mine)) in
        let rec =
          sum_from-some ps n (λ j.
            omega (arith, h j, (share_kept j p kept).0, add_to_amount keys k a m n j there)) in
        (rec.0, simp (kept, there, rec.1))
  ]
