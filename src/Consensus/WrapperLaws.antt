-- ===== src/Consensus/WrapperLaws.antt =====
-- The wrappers read back what they wrote, if their parts do.
use lrc.Common.{
  ℕ, All, List, Option, [], append-nil, append_assoc, arith, length, none, refl, some, suc, ◌%◌,
  ◌++◌, ◌<◌, ◌^◌, ◌∷◌, ◌≡◌, ◌≤◌,
}
use lrc.Codec.{Codec, RoundTrips}
use lrc.Codec.Bitcoin.{BitcoinCodecs}
use lrc.Consensus.Wrappers.{
  BTreeMap, insert, encode_option, decode_option, encode_each, decode_each, encode_vec, decode_vec,
  encode_entries, encode_map, decode_entries, decode_map, option_wrapper, btree_map_wrapper,
  vec_wrapper,
}
use lrc.Outcome.{ok}

abbrev pub OptionAll : {A : Type 0} → (A → Type 0) → Option A → Type 0
OptionAll P none = Unit {0}
OptionAll P (some a) = P a

-- Keys rise along the list, from a bound on.
abbrev pub RisesFrom : {V : Type 0} → ℕ → BTreeMap V → Type 0
RisesFrom lo [] = Unit {0}
RisesFrom lo ((k, v) ∷ m) = (lo ≤ k) × RisesFrom (suc k) m

abbrev pub IsSorted : {V : Type 0} → BTreeMap V → Type 0
IsSorted m = RisesFrom 0 m

-- Keys below a bound.
abbrev pub KeysBelow : {V : Type 0} → ℕ → BTreeMap V → Type 0
KeysBelow hi m = All (λ e. e.0 < hi) m

pub RisesFrom-mono :
    {V : Type 0} (lo hi : ℕ) (m : BTreeMap V) → lo ≤ hi → RisesFrom hi m → RisesFrom lo m
RisesFrom-mono lo hi [] h r = tt
RisesFrom-mono lo hi ((k, v) ∷ m) h r = (omega arith, r.1)

insert-RisesFrom :
    {V : Type 0} (lo k : ℕ) (v : V) (m : BTreeMap V)
    → lo ≤ k
    → RisesFrom lo m
    → RisesFrom lo (insert k v m)
unfolding insert
insert-RisesFrom lo k v [] h r = (h, tt)
insert-RisesFrom lo k v ((j, w) ∷ m) h r =
    ground (arith, insert-RisesFrom (suc j) k v m, RisesFrom-mono (suc k) j m)

-- Inserting keeps a map in the order of its keys.
pub insert-IsSorted :
    {V : Type 0} (k : ℕ) (v : V) (m : BTreeMap V) → IsSorted m → IsSorted (insert k v m)
insert-IsSorted k v m r = insert-RisesFrom 0 k v m (omega arith) r

-- A key above all others goes to the end.
insert_last :
    {V : Type 0} (k : ℕ) (v : V) (m : BTreeMap V)
    → KeysBelow k m
    → insert k v m ≡ m ++ ((k, v) ∷ [])
unfolding insert
insert_last k v [] h = refl
insert_last k v ((j, w) ∷ m) h = ground (arith, insert_last k v m)

KeysBelow-append :
    {V : Type 0} (hi : ℕ) (m : BTreeMap V) (k : ℕ) (v : V)
    → KeysBelow hi m
    → k < hi
    → KeysBelow hi (m ++ ((k, v) ∷ []))
KeysBelow-append hi [] k v h b = (b, tt)
KeysBelow-append hi (e ∷ m) k v h b = (h.0, KeysBelow-append hi m k v h.1 b)

KeysBelow-mono :
    {V : Type 0} (lo hi : ℕ) (m : BTreeMap V) → lo ≤ hi → KeysBelow lo m → KeysBelow hi m
KeysBelow-mono lo hi [] h b = tt
KeysBelow-mono lo hi (e ∷ m) h b = (omega arith, KeysBelow-mono lo hi m h b.1)

module _ (btc : BitcoinCodecs) {A : Type 0} (c : Codec A) (P : A → Type 0)
    (law : RoundTrips c P) where
  open btc use {u8, u32, u8_lem, u32_lem}

  pub option_wrapper_lem : RoundTrips (option_wrapper btc c) (OptionAll P)
  unfolding encode_option decode_option
  option_wrapper_lem none h rest = rw (u8_lem 0 (omega arith) rest)
  option_wrapper_lem (some a) h rest = simp (append_assoc, u8_lem 1 (omega arith), law a h)

  decode_each-encode_each :
      (xs : List A)
      → All P xs
      → (rest : List ℕ)
      → decode_each btc c (length xs) (encode_each btc c xs ++ rest) ≡ ok (xs, rest)
  unfolding decode_each encode_each
  decode_each-encode_each [] h rest = refl
  decode_each-encode_each (x ∷ xs) h rest =
      simp (append_assoc, law x h.0, decode_each-encode_each xs h.1 rest)

  pub vec_wrapper_lem : RoundTrips (vec_wrapper btc c) (λ xs. All P xs × (length xs < 2 ^ 32))
  unfolding encode_vec decode_vec
  vec_wrapper_lem xs (h, k) rest =
      rw fits (simp (append_assoc, u32_lem (length xs) k, decode_each-encode_each xs h))
    where
      fits : length xs % 2 ^ 32 ≡ length xs
      fits = omega arith

  -- A map whose keys rise and are u32, of values that their codec reads back.
  pub record IsEncodable (m : BTreeMap A) : Type 0 where
    pub sorted : IsSorted m
    pub keys : KeysBelow (2 ^ 32) m
    pub vals : All (λ e. P e.1) m
    pub size : length m < 2 ^ 32

  decode_entries-encode_entries :
      (m acc : BTreeMap A) (lo : ℕ) (rest : List ℕ)
      → RisesFrom lo m
      → KeysBelow lo acc
      → KeysBelow (2 ^ 32) m
      → All (λ e. P e.1) m
      → decode_entries btc c (length m) acc (encode_entries btc c m ++ rest) ≡ ok (acc ++ m, rest)
  unfolding decode_entries encode_entries
  decode_entries-encode_entries [] acc lo rest r b ks vs = rw (append-nil acc)
  decode_entries-encode_entries ((k, v) ∷ m) acc lo rest r b ks vs = simp (
    append_assoc,
    u32_lem k ks.0,
    law v vs.0,
    insert_last k v acc (KeysBelow-mono lo k acc r.0 b),
    decode_entries-encode_entries m (acc ++ ((k, v) ∷ [])) (suc k) rest r.1
        (KeysBelow-append (suc k) acc k v (KeysBelow-mono lo (suc k) acc (omega arith) b)
          (omega arith))
        ks.1 vs.1,
  )

  pub btree_map_wrapper_lem : RoundTrips (btree_map_wrapper btc c) IsEncodable
  unfolding encode_map decode_map
  btree_map_wrapper_lem m v rest = rw fits (
      simp (
        append_assoc,
        u32_lem (length m) v.size,
        decode_entries-encode_entries m [] 0 rest v.sorted tt v.keys v.vals,
      ))
    where
      fits : length m % 2 ^ 32 ≡ length m
      fits = omega (arith, v.size)
