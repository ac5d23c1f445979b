-- ===== src/Announcements/TokenLogo/RoundTrip.antt =====
-- The bytes of a logo announcement are read back.
use lrc.Common.{
  ℕ, ◌%◌, ◌≡◌, ◌≤◌, refl, List, [], ◌∷◌, true, arith, append-nil, length, length-append, le→ltb,
  le→leb,
}
use lrc.Outcome.{ok}
use lrc.Codec.Bytes.{read_u8, is_utf8, read-append, read_exact, read_exact-append}
use lrc.Keys.{Secp256k1}
use lrc.Receipt.{token_pubkey_to_bytes}
use lrc.Receipt.Laws.{length-token_pubkey_to_bytes, token_pubkey_from_bytes-token_pubkey_to_bytes}
use lrc.Announcements.Errors.{TokenLogoAnnouncementParseError}
use lrc.Announcements.TokenLogo.{
  TokenLogoAnnouncement, new, read_fields, from_announcement_data_bytes, to_announcement_data_bytes,
}

-- The limits that `new` checks, and UTF-8.
pub record IsValid {K : Type 0} (a : TokenLogoAnnouncement K) : Type 0 where
  pub url_min : 15 ≤ length a.logo_url
  pub url_max : length a.logo_url ≤ 48
  pub url_utf8 : is_utf8 a.logo_url ≡ true

read_exact_whole : {E : Type 0} (e : E) (xs : List ℕ) → read_exact e (length xs) xs ≡ ok (xs, [])
read_exact_whole e xs = rw (append-nil) at (read_exact-append e (length xs) xs [] refl)

module _ (secp : Secp256k1) where
  open secp use {PublicKey}

  read_fields_lem :
      (a : TokenLogoAnnouncement PublicKey)
      → IsValid a
      → read_fields secp (to_announcement_data_bytes secp a) ≡ ok (a, [])
  unfolding read_fields to_announcement_data_bytes read_u8 new
  read_fields_lem a v = rw (
    read-append 33 (token_pubkey_to_bytes secp a.token_pubkey) _
        (length-token_pubkey_to_bytes secp a.token_pubkey),
    token_pubkey_from_bytes-token_pubkey_to_bytes secp a.token_pubkey,
    one_byte,
    le→leb 15 (length a.logo_url) v.url_min,
    le→leb (length a.logo_url) 48 v.url_max,
    read_exact_whole TokenLogoAnnouncementParseError.invalid_announcement_data a.logo_url,
    v.url_utf8,
    le→ltb (length a.logo_url) 15 v.url_min,
    le→ltb 48 (length a.logo_url) v.url_max,
  )
    where
      one_byte : length a.logo_url % 256 ≡ length a.logo_url
      one_byte = omega (arith, v.url_max)

  length_min :
      (a : TokenLogoAnnouncement PublicKey)
      → IsValid a
      → 48 ≤ length (to_announcement_data_bytes secp a)
  unfolding to_announcement_data_bytes
  length_min a v = omega (
    arith,
    length-append (token_pubkey_to_bytes secp a.token_pubkey)
        ((length a.logo_url % 256) ∷ a.logo_url),
    length-token_pubkey_to_bytes secp a.token_pubkey,
    v.url_min,
  )

  -- The data bytes of a logo announcement within its limits are read back as the announcement.
  pub from-to_announcement_data_bytes :
      (a : TokenLogoAnnouncement PublicKey)
      → IsValid a
      → from_announcement_data_bytes secp (to_announcement_data_bytes secp a) ≡ ok a
  unfolding from_announcement_data_bytes
  from-to_announcement_data_bytes a v =
      rw (
        le→ltb (length (to_announcement_data_bytes secp a)) 48 (length_min a v),
        read_fields_lem a v,
      )
