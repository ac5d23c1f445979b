-- ===== src/Announcements/TokenLogo.antt =====
-- crates/types/src/announcements/token_logo.rs: the URL of a token's logo.
pub mod RoundTrip
use lrc.Common.{ℕ, ◌+◌, ◌%◌, List, ◌∷◌, ◌++◌, ◌&&◌, ◌||◌, length, ltb, leb, if◌then◌else◌}
use lrc.Outcome.{Result, ok, err, map_err}
use lrc.Codec.{Reader, ◌>>=◌, lift}
use lrc.Codec.Bytes.{read, read_exact, read_u8, is_utf8}
use lrc.Keys.{Secp256k1}
use lrc.Receipt.{token_pubkey_size, token_pubkey_to_bytes, token_pubkey_from_bytes}
use lrc.Announcements.Errors.{TokenLogoAnnouncementParseError, AnnouncementParseError, DataError}
use lrc.Outcome

abbrev pub max_url_size : ℕ
max_url_size = 48

abbrev pub min_url_size : ℕ
min_url_size = 15

abbrev pub min_token_logo_announcement_size : ℕ
min_token_logo_announcement_size = token_pubkey_size + min_url_size

-- `logo_url` is the bytes of the string.
pub record TokenLogoAnnouncement (K : Type 0) : Type 0 where
  pub token_pubkey : K
  pub logo_url : List ℕ

-- `TokenLogoAnnouncement::new`
unfoldable pub new :
    {K : Type 0} → K → List ℕ → Result TokenLogoAnnouncementParseError (TokenLogoAnnouncement K)
new token_pubkey logo_url =
    if ltb (length logo_url) min_url_size || ltb max_url_size (length logo_url)
    then err TokenLogoAnnouncementParseError.invalid_url_length
    else ok (record { token_pubkey = token_pubkey; logo_url = logo_url })

module _ (secp : Secp256k1) where
  open secp use {PublicKey}

  unfoldable pub read_fields :
      Reader TokenLogoAnnouncementParseError (TokenLogoAnnouncement PublicKey)
  read_fields = do
    token_pubkey_bytes ← read token_pubkey_size
    token_pubkey ← lift (
        map_err TokenLogoAnnouncementParseError.invalid_token_pubkey
          (token_pubkey_from_bytes secp token_pubkey_bytes))
    url_len ← read_u8 TokenLogoAnnouncementParseError.invalid_announcement_data
    in_range ← lift (
        Outcome.guard (leb min_url_size url_len && leb url_len max_url_size)
          TokenLogoAnnouncementParseError.invalid_url_length)
    url_bytes ← read_exact TokenLogoAnnouncementParseError.invalid_announcement_data url_len
    valid ←
        lift (Outcome.guard (is_utf8 url_bytes) TokenLogoAnnouncementParseError.invalid_utf8_string)
    lift (new token_pubkey url_bytes)

  unfoldable pub from_announcement_data_bytes :
      List ℕ → Result AnnouncementParseError (TokenLogoAnnouncement PublicKey)
  from_announcement_data_bytes bytes =
      map_err (λ e. AnnouncementParseError.invalid_announcement_data (DataError.token_logo e))
        (if ltb (length bytes) min_token_logo_announcement_size
          then err TokenLogoAnnouncementParseError.short_length
          else Outcome.◌>>=◌ (read_fields bytes) (λ p. ok p.0))

  unfoldable pub to_announcement_data_bytes : TokenLogoAnnouncement PublicKey → List ℕ
  to_announcement_data_bytes a =
      token_pubkey_to_bytes secp a.token_pubkey ++ ((length a.logo_url % 256) ∷ a.logo_url)
