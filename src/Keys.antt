-- ===== src/Keys.antt =====
-- The `secp256k1` crate's public keys, as a parameter: their types, serialization and parsing, with
-- the documented facts that the program relies on.
use lrc.Common.{Bool, true, ℕ, ◌≡◌, ◌⊎◌, List, Option, some, length}

pub record Secp256k1 : Type 1 where
  pub PublicKey : Type 0
  -- `PublicKey::serialize`: the 33 bytes of the compressed form.
  pub serialize : PublicKey → List ℕ
  -- `PublicKey::from_slice`: a compressed or an uncompressed key.
  pub from_slice : List ℕ → Option PublicKey
  -- `XOnlyPublicKey::from_slice(..)` followed by `public_key(Parity::Even)`.
  pub from_xonly_slice : List ℕ → Option PublicKey
  pub length-serialize : (k : PublicKey) → length (serialize k) ≡ 33
  pub from_slice-serialize : (k : PublicKey) → from_slice (serialize k) ≡ some k
  pub from_slice_size :
      (bs : List ℕ) (k : PublicKey) → from_slice bs ≡ some k → (length bs ≡ 33) ⊎ (length bs ≡ 65)

-- `PartialEq` of keys.
pub record KeyEq (K : Type 0) : Type 0 where
  pub same : K → K → Bool
  pub same_refl : (k : K) → same k k ≡ true
  pub same→eq : (j k : K) → same j k ≡ true → j ≡ k
