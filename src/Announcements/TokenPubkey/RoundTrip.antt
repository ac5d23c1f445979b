-- ===== src/Announcements/TokenPubkey/RoundTrip.antt =====
-- The bytes of a token announcement are read back, and what is read is within its limits.
use lrc.Common.{
  le→ltb, length-append, ℕ, ◌%◌, ◌^◌, ◌≡◌, ◌≤◌, ◌<◌, refl, List, [], ◌∷◌, ◌++◌, Bool, true, false,
  not, arith, length, le→leb, if◌then◌else◌, ◌==◌,
}
use lrc.Common.Words.{to_le_bytes, from_le_bytes-to_le_bytes, length-to_le_bytes}
use lrc.Outcome.{ok}
use lrc.Codec.Bytes.{read_u8, is_utf8, read-append, read_exact-append}
use lrc.Keys.{Secp256k1}
use lrc.Receipt.{token_pubkey_to_bytes}
use lrc.Receipt.Laws.{length-token_pubkey_to_bytes, token_pubkey_from_bytes-token_pubkey_to_bytes}
use lrc.Announcements.Errors.{TokenPubkeyAnnouncementParseError}
use lrc.Announcements.TokenPubkey.{
  TokenPubkeyAnnouncement, read_string, read_fields, from_announcement_data_bytes,
  to_announcement_data_bytes,
}

-- The limits that `new` checks, those of the field types, and UTF-8.
pub record IsValid {K : Type 0} (a : TokenPubkeyAnnouncement K) : Type 0 where
  pub name_min : 3 ≤ length a.name
  pub name_max : length a.name ≤ 17
  pub name_utf8 : is_utf8 a.name ≡ true
  pub symbol_min : 3 ≤ length a.symbol
  pub symbol_max : length a.symbol ≤ 6
  pub symbol_utf8 : is_utf8 a.symbol ≡ true
  pub decimal_u8 : a.decimal < 256
  pub max_supply_u128 : a.max_supply < 2 ^ 128

read_string_lem :
    (lo hi : ℕ) (e : TokenPubkeyAnnouncementParseError) (s rest : List ℕ)
    → lo ≤ length s
    → length s ≤ hi
    → hi < 256
    → is_utf8 s ≡ true
    → read_string lo hi e ((length s % 256) ∷ (s ++ rest)) ≡ ok (s, rest)
unfolding read_string read_u8
read_string_lem lo hi e s rest h k b u = rw (
  one_byte,
  le→leb lo (length s) h,
  le→leb (length s) hi k,
  read_exact-append TokenPubkeyAnnouncementParseError.invalid_announcement_data (length s) s rest
      refl,
  u,
)
  where
    one_byte : length s % 256 ≡ length s
    one_byte = omega arith

freezable_byte : (b : Bool) → not ((if b then 1 else 0) == 0) ≡ b
freezable_byte true = refl
freezable_byte false = refl

module _ (secp : Secp256k1) where
  open secp use {PublicKey}

  read_fields_lem :
      (a : TokenPubkeyAnnouncement PublicKey)
      → IsValid a
      → read_fields secp (to_announcement_data_bytes secp a) ≡ ok (a, [])
  unfolding read_fields to_announcement_data_bytes read_u8
  read_fields_lem a v = rw (
    read-append 33 (token_pubkey_to_bytes secp a.token_pubkey) _
        (length-token_pubkey_to_bytes secp a.token_pubkey),
    token_pubkey_from_bytes-token_pubkey_to_bytes secp a.token_pubkey,
    read_string_lem 3 17 _ a.name _ v.name_min v.name_max (omega arith) v.name_utf8,
    read_string_lem 3 6 _ a.symbol _ v.symbol_min v.symbol_max (omega arith) v.symbol_utf8,
    read_exact-append _ 16 (to_le_bytes 16 a.max_supply) _ (length-to_le_bytes 16 a.max_supply),
    from_le_bytes-to_le_bytes 16 a.max_supply v.max_supply_u128,
    freezable_byte a.is_freezable,
  )

  length_min :
      (a : TokenPubkeyAnnouncement PublicKey)
      → IsValid a
      → 58 ≤ length (to_announcement_data_bytes secp a)
  unfolding to_announcement_data_bytes
  length_min a v = omega (
    arith,
    length-append {0},
    length-token_pubkey_to_bytes secp a.token_pubkey,
    length-to_le_bytes 16 a.max_supply,
    v.name_min,
    v.symbol_min,
  )

  -- The data bytes of a token announcement within its limits are read back as the announcement.
  pub from-to_announcement_data_bytes :
      (a : TokenPubkeyAnnouncement PublicKey)
      → IsValid a
      → from_announcement_data_bytes secp (to_announcement_data_bytes secp a) ≡ ok a
  unfolding from_announcement_data_bytes
  from-to_announcement_data_bytes a v =
      rw (
        le→ltb (length (to_announcement_data_bytes secp a)) 58 (length_min a v),
        read_fields_lem a v,
      )
