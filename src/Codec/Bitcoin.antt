-- ===== src/Codec/Bitcoin.antt =====
-- The codecs of the `bitcoin` crate for the primitive types, as a parameter: its operations, and the
-- documented fact that each reads back what it wrote.
use lrc.Common.{◌++◌, ℕ, ◌<◌, ◌^◌, ◌≡◌, List, Bool, length}
use lrc.Codec.{Codec, RoundTrips}

pub record BitcoinCodecs : Type 0 where
  pub u8 : Codec ℕ
  pub u16 : Codec ℕ
  pub u32 : Codec ℕ
  pub u64 : Codec ℕ
  pub bool : Codec Bool
  -- `Vec<u8>` and `ScriptBuf`, behind a compact size.
  pub bytes : Codec (List ℕ)
  -- `[u8; N]`, and so the hash types, which are arrays of 32 bytes.
  pub array : ℕ → Codec (List ℕ)
  pub u8_lem : RoundTrips u8 (λ n. n < 2 ^ 8)
  pub u16_lem : RoundTrips u16 (λ n. n < 2 ^ 16)
  pub u32_lem : RoundTrips u32 (λ n. n < 2 ^ 32)
  pub u64_lem : RoundTrips u64 (λ n. n < 2 ^ 64)
  pub bool_lem : RoundTrips bool (λ b. Unit {0})
  pub bytes_lem : RoundTrips bytes (λ bs. length bs < 2 ^ 16)
  -- The compact size of fewer than 253 bytes is one byte.
  pub bytes_short : (bs : List ℕ) → length bs < 253 → bytes.encode bs ≡ u8.encode (length bs) ++ bs
  pub array_lem : (w : ℕ) → RoundTrips (array w) (λ bs. length bs ≡ w)
