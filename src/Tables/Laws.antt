-- ===== src/Tables/Laws.antt =====
-- Laws of maps and sets. A test of keys is written on the left.
use lrc.Common.{
  ◌≡◌, ◌≤◌, ◌<◌, false, ◌||◌, if◌then◌else◌, List, [], ◌∷◌, none, some, length, arith, refl, ◌++◌,
}
use lrc.Keys.{KeyEq}
use lrc.Tables.{contains, remove, insert, extend, remove_all, get, erase, put}

module _ {K : Type 0} (keys : KeyEq K) where
  pub contains-remove :
      (k j : K) (s : List K)
      → contains keys j (remove keys k s) ≡ (if keys.same k j then false else contains keys j s)
  unfolding contains remove
  contains-remove k j [] = ground arith
  contains-remove k j (i ∷ s) = ground (
    arith,
    contains-remove k j s,
    keys.same→eq i k,
    keys.same→eq i j,
    keys.same→eq k j,
    keys.same_refl i,
  )

  pub contains-insert :
      (k j : K) (s : List K)
      → contains keys j (insert keys k s) ≡ (keys.same k j || contains keys j s)
  unfolding contains insert
  contains-insert k j s = ground (arith, keys.same→eq k j)

  pub contains-extend :
      (j : K) (s ks : List K)
      → contains keys j (extend keys s ks) ≡ (contains keys j s || contains keys j ks)
  unfolding contains extend
  contains-extend j s [] = ground arith
  contains-extend j s (k ∷ ks) =
      ground (arith, contains-extend j (insert keys k s) ks, contains-insert k j s)

  pub contains-remove_all :
      (j : K) (ks s : List K)
      → contains keys j (remove_all keys ks s)
        ≡ (if contains keys j ks then false else contains keys j s)
  unfolding contains remove_all
  contains-remove_all j [] s = refl
  contains-remove_all j (k ∷ ks) s =
      ground (arith, contains-remove_all j ks (remove keys k s), contains-remove k j s)

  pub length-remove : (k : K) (s : List K) → length (remove keys k s) ≤ length s
  unfolding remove
  length-remove k [] = omega arith
  length-remove k (j ∷ s) = ground (arith, length-remove k s)

  module _ {V : Type 0} where
    pub get-erase :
        (k j : K) (m : List (K × V))
        → get keys j (erase keys k m) ≡ (if keys.same k j then none else get keys j m)
    unfolding get erase
    get-erase k j [] = ground arith
    get-erase k j ((i, v) ∷ m) = ground (
      arith,
      get-erase k j m,
      keys.same→eq i k,
      keys.same→eq i j,
      keys.same→eq k j,
      keys.same_refl i,
    )

    pub get-put :
        (k j : K) (v : V) (m : List (K × V))
        → get keys j (put keys k v m) ≡ (if keys.same k j then some v else get keys j m)
    unfolding get put
    get-put k j v m = ground (arith, get-erase k j m)

    pub length-erase : (k : K) (m : List (K × V)) → length (erase keys k m) ≤ length m
    unfolding erase
    length-erase k [] = omega arith
    length-erase k ((j, v) ∷ m) = ground (arith, length-erase k m)

    -- A key that is there makes the map smaller.
    pub length-erase-some :
        (k : K) (m : List (K × V)) (v : V)
        → get keys k m ≡ some v
        → length (erase keys k m) < length m
    unfolding get erase
    length-erase-some k [] v h = cc
    length-erase-some k ((j, w) ∷ m) v h = ground (arith, length-erase k m, length-erase-some k m v)

  pub contains-append :
      (j : K) (s t : List K) → contains keys j (s ++ t) ≡ (contains keys j s || contains keys j t)
  unfolding contains
  contains-append j [] t = refl
  contains-append j (k ∷ s) t = ground (arith, contains-append j s t)
