-- ===== src/Tables/Distinct.antt =====
-- Sets as lists without repetition, and their lengths.
use lrc.Common.{◌<◌, ◌≤◌, ◌≡◌, true, false, List, [], ◌∷◌, length, arith, Bool-cases, inl, inr}
use lrc.Keys.{KeyEq}
use lrc.Tables.{contains, remove, insert, extend}
use lrc.Tables.Laws.{contains-remove, length-remove}

module _ {K : Type 0} (keys : KeyEq K) where
  -- No element is there twice.
  abbrev pub IsDistinct : List K → Type 0
  IsDistinct [] = Unit
  IsDistinct (k ∷ s) = (contains keys k s ≡ false) × IsDistinct s

  -- Every element of one list is in the other.
  abbrev pub Among : List K → List K → Type 0
  Among s t = (k : K) → contains keys k s ≡ true → contains keys k t ≡ true

  insert-IsDistinct : (k : K) (s : List K) → IsDistinct s → IsDistinct (insert keys k s)
  unfolding insert
  insert-IsDistinct k s h = elim (Bool-cases (contains keys k s)) [
    | inl there ↦ rw there h
    | inr fresh ↦ rw fresh (fresh, h)
  ]

  pub extend-IsDistinct : (s ks : List K) → IsDistinct s → IsDistinct (extend keys s ks)
  unfolding extend
  extend-IsDistinct s [] h = h
  extend-IsDistinct s (k ∷ ks) h = extend-IsDistinct (insert keys k s) ks (insert-IsDistinct k s h)

  length-remove-contains :
      (k : K) (s : List K) → contains keys k s ≡ true → length (remove keys k s) < length s
  unfolding contains remove
  length-remove-contains k [] h = cc
  length-remove-contains k (j ∷ s) h =
      ground (arith, length-remove keys k s, length-remove-contains k s)

  -- Distinct elements of a list are at most as many as the list has.
  pub IsDistinct-length : (s t : List K) → IsDistinct s → Among s t → length s ≤ length t
  unfolding contains
  IsDistinct-length [] t h among = omega arith
  IsDistinct-length (k ∷ s) t (fresh, h) among =
      let rest = IsDistinct-length s (remove keys k t) h (λ j there.
        elim (Bool-cases (keys.same k j)) [
          | inl same ↦ absurd (ground (arith, there, fresh, keys.same→eq k j same))
          | inr other ↦
              ground (arith, contains-remove keys k j t, other, among j (ground (arith, there)))
        ]) in
      omega (arith, rest, length-remove-contains k t (among k (ground (arith, keys.same_refl k))))
