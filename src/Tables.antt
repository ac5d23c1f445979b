-- ===== src/Tables.antt =====
-- `HashMap` and `HashSet` as the lists of their entries, each key at most once.
pub mod Laws
pub mod Distinct
use lrc.Common.{Bool, false, ◌||◌, if◌then◌else◌, List, [], ◌∷◌, Option, none, some}
use lrc.Keys.{KeyEq}

module _ {K : Type 0} (keys : KeyEq K) where
  -- `HashSet::contains`, also that of slices
  unfoldable pub contains : K → List K → Bool
  contains k [] = false
  contains k (j ∷ s) = keys.same j k || contains k s

  -- `HashSet::remove`
  unfoldable pub remove : K → List K → List K
  remove k [] = []
  remove k (j ∷ s) = if keys.same j k then remove k s else j ∷ remove k s

  -- `HashSet::insert`
  unfoldable pub insert : K → List K → List K
  insert k s = if contains k s then s else k ∷ s

  -- `HashSet::extend`
  unfoldable pub extend : List K → List K → List K
  extend s [] = s
  extend s (k ∷ ks) = extend (insert k s) ks

  unfoldable pub remove_all : List K → List K → List K
  remove_all [] s = s
  remove_all (k ∷ ks) s = remove_all ks (remove k s)

  module _ {V : Type 0} where
    -- `HashMap::get`
    unfoldable pub get : K → List (K × V) → Option V
    get k [] = none
    get k ((j, v) ∷ m) = if keys.same j k then some v else get k m

    -- `HashMap::remove`
    unfoldable pub erase : K → List (K × V) → List (K × V)
    erase k [] = []
    erase k ((j, v) ∷ m) = if keys.same j k then erase k m else (j, v) ∷ erase k m

    -- `HashMap::insert`
    unfoldable pub put : K → V → List (K × V) → List (K × V)
    put k v m = (k, v) ∷ erase k m

-- `Option::unwrap_or_default` on a set.
abbrev pub or_empty : {A : Type 0} → Option (List A) → List A
or_empty none = []
or_empty (some s) = s
