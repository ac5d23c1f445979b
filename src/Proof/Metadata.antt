-- ===== src/Proof/Metadata.antt =====
-- crates/receipts/src/metadata.rs: a JSON value behind its length in four bytes. `serde_json` is a
-- parameter.
use lrc.Common.{
  ℕ, List, Option, append_assoc, arith, drop, drop-append, if◌then◌else◌, length, ltb, lt→ltb, none,
  refl, some, take, take-append, ◌%◌, ◌++◌, ◌<◌, ◌^◌, ◌≡◌,
}
use lrc.Common.Words.{to_be_bytes, from_be_bytes, from_be_bytes-to_be_bytes, length-to_be_bytes}
use lrc.Codec.{Reader, EncodeError, pure, lift, Codec, parse_failed, io}
use lrc.Outcome.{ok, ok_or}
use lrc.Codec.Bytes.{read_exact, read_exact-append}
use lrc.Codec
use lrc.Outcome

pub record Json : Type 1 where
  pub Value : Type 0
  pub to_vec : Value → List ℕ
  pub from_slice : List ℕ → Option Value
  -- No JSON text is empty.
  pub to_vec_nonempty : (v : Value) → 0 < length (to_vec v)

-- `reader.take(n).read_to_end(..)`: at most `n` bytes, fewer at the end of the input.
unfoldable pub take_to_end : ℕ → Reader EncodeError (List ℕ)
take_to_end n bs = ok (take n bs, drop n bs)

module _ (json : Json) where
  open json use {Value, to_vec, from_slice, to_vec_nonempty}

  unfoldable pub try_write_metadata : Option Value → List ℕ
  try_write_metadata (some metadata) =
      to_be_bytes 4 (length (to_vec metadata) % 2 ^ 32) ++ to_vec metadata
  try_write_metadata none = to_be_bytes 4 0

  unfoldable pub try_read_metadata : Reader EncodeError (Option Value)
  try_read_metadata = Codec.◌>>=◌ (read_exact io 4) (λ metadata_len_bytes.
      let metadata_len = from_be_bytes metadata_len_bytes in
      if ltb 0 metadata_len
      then Codec.◌>>=◌ (take_to_end metadata_len) (λ metadata_bytes. lift (
          Outcome.◌>>=◌
            (ok_or (from_slice metadata_bytes) (parse_failed "Failed to parse metadata"))
            (λ metadata. ok (some metadata))))
      else pure none)

  -- Not every value is read back from its JSON: the digits of a float may be rounded, and deep nesting
  -- is written but refused. So that a value is, and that its length fits into four bytes, is asked of it.
  abbrev pub IsReadBack : Option Value → Type 0
  IsReadBack none = Unit {0}
  IsReadBack (some v) = (length (to_vec v) < 2 ^ 32) × (from_slice (to_vec v) ≡ some v)

  -- Metadata that serde_json reads back and whose JSON is shorter than 2^32 bytes, or none, is read back
  -- from its bytes; what follows is left.
  pub try_read-try_write_metadata :
      (m : Option Value)
      → IsReadBack m
      → (rest : List ℕ) → try_read_metadata (try_write_metadata m ++ rest) ≡ ok (m, rest)
  unfolding try_read_metadata try_write_metadata take_to_end
  try_read-try_write_metadata none h rest = rw (
    read_exact-append io 4 (to_be_bytes 4 0) rest (length-to_be_bytes 4 0),
    from_be_bytes-to_be_bytes 4 0 (omega arith),
  )
  try_read-try_write_metadata (some v) (small, read_back) rest = rw (
    fits,
    append_assoc (to_be_bytes 4 (length (to_vec v))) (to_vec v) rest,
    read_exact-append io 4 (to_be_bytes 4 (length (to_vec v))) (to_vec v ++ rest)
        (length-to_be_bytes 4 (length (to_vec v))),
    from_be_bytes-to_be_bytes 4 (length (to_vec v)) (omega arith),
    lt→ltb 0 (length (to_vec v)) (to_vec_nonempty v),
    take-append (length (to_vec v)) (to_vec v) rest refl,
    drop-append (length (to_vec v)) (to_vec v) rest refl,
    read_back,
  )
    where
      fits : length (to_vec v) % 2 ^ 32 ≡ length (to_vec v)
      fits = omega arith
