-- ===== src/Consensus/Wrappers.antt =====
-- `OptionWrapper`, `BTreeMapWrapper` and the wrappers of vectors.
use lrc.Common.{
  ℕ, List, Option, [], if◌then◌else◌, length, ltb, none, some, suc, zero, ◌%◌, ◌++◌, ◌==◌, ◌^◌, ◌∷◌,
}
use lrc.Codec.{Codec, Reader, EncodeError, ◌>>=◌, pure}
use lrc.Codec.Bitcoin.{BitcoinCodecs}

-- A `BTreeMap<u32, V>`: its entries in the order of the keys.
abbrev pub BTreeMap {ℓ} : Type ℓ → Type ℓ
BTreeMap V = List (ℕ × V)

-- `BTreeMap::insert`: a new value for a key that is there takes the old one's place.
unfoldable pub insert {ℓ} : {V : Type ℓ} → ℕ → V → BTreeMap V → BTreeMap V
insert k v [] = (k, v) ∷ []
insert k v ((j, w) ∷ m) =
    if ltb k j then (k, v) ∷ (j, w) ∷ m else if k == j then (k, v) ∷ m else (j, w) ∷ insert k v m

module _ (btc : BitcoinCodecs) {A : Type 0} (c : Codec A) where
  open btc use {u8, u32}

  unfoldable pub encode_option : Option A → List ℕ
  encode_option (some value) = u8.encode 1 ++ c.encode value
  encode_option none = u8.encode 0

  unfoldable pub decode_option : Reader EncodeError (Option A)
  decode_option = do
    value ← u8.decode
    if value == 0 then pure none else (c.decode >>= λ a. pure (some a))

  -- The loops `for x in &self.0 { x.consensus_encode(writer)?; }`
  unfoldable pub encode_each : List A → List ℕ
  encode_each [] = []
  encode_each (x ∷ xs) = c.encode x ++ encode_each xs

  -- `(0..len).map(|_i| Decodable::consensus_decode(reader)).collect::<Result<Vec<_>, _>>()`
  unfoldable pub decode_each : ℕ → Reader EncodeError (List A)
  decode_each zero = pure []
  decode_each (suc len) = do x ← c.decode; xs ← decode_each len; pure (x ∷ xs)

  -- `self.0.len() as u32`
  unfoldable pub encode_vec : List A → List ℕ
  encode_vec xs = u32.encode (length xs % 2 ^ 32) ++ encode_each xs

  unfoldable pub decode_vec : Reader EncodeError (List A)
  decode_vec = do len ← u32.decode; decode_each len

  unfoldable pub encode_entries : BTreeMap A → List ℕ
  encode_entries [] = []
  encode_entries ((key, value) ∷ m) = u32.encode key ++ (c.encode value ++ encode_entries m)

  unfoldable pub encode_map : BTreeMap A → List ℕ
  encode_map m = u32.encode (length m % 2 ^ 32) ++ encode_entries m

  unfoldable pub decode_entries : ℕ → BTreeMap A → Reader EncodeError (BTreeMap A)
  decode_entries zero proofs = pure proofs
  decode_entries (suc len) proofs = do
    key ← u32.decode
    value ← c.decode
    decode_entries len (insert key value proofs)

  unfoldable pub decode_map : Reader EncodeError (BTreeMap A)
  decode_map = do len ← u32.decode; decode_entries len []

abbrev pub option_wrapper : BitcoinCodecs → {A : Type 0} → Codec A → Codec (Option A)
option_wrapper btc c = record { encode = encode_option btc c; decode = decode_option btc c }

abbrev pub btree_map_wrapper : BitcoinCodecs → {A : Type 0} → Codec A → Codec (BTreeMap A)
btree_map_wrapper btc c = record { encode = encode_map btc c; decode = decode_map btc c }

abbrev pub vec_wrapper : BitcoinCodecs → {A : Type 0} → Codec A → Codec (List A)
vec_wrapper btc c = record { encode = encode_vec btc c; decode = decode_vec btc c }
