-- ===== src/Announcements/TokenPubkey.antt =====
-- crates/types/src/announcements/token_pubkey.rs: the first announcement of a token.
pub mod RoundTrip
use lrc.Common.{
  ℕ, ◌+◌, ◌%◌, List, [], ◌∷◌, ◌++◌, Bool, not, ◌&&◌, ◌||◌, length, ltb, leb, ◌==◌, if◌then◌else◌,
}
use lrc.Common.Words.{to_le_bytes, from_le_bytes}
use lrc.Outcome.{Result, ok, err, map_err}
use lrc.Codec.{Reader, ◌>>=◌, pure, lift}
use lrc.Codec.Bytes.{read, read_exact, read_u8, is_utf8}
use lrc.Keys.{Secp256k1}
use lrc.Receipt.{token_pubkey_size, token_pubkey_to_bytes, token_pubkey_from_bytes}
use lrc.Announcements.Errors.{
  TokenPubkeyAnnouncementParseError, AnnouncementParseError, DataError, invalid_utf8_string,
  invalid_symbol_length, invalid_name_length,
}
use lrc.Outcome

abbrev pub max_name_size : ℕ
max_name_size = 17

abbrev pub min_name_size : ℕ
min_name_size = 3

abbrev pub max_symbol_size : ℕ
max_symbol_size = 6

abbrev pub min_symbol_size : ℕ
min_symbol_size = 3

-- SCHNORR_PUBLIC_KEY_SIZE is 32.
abbrev pub min_token_pubkey_announcement_size : ℕ
min_token_pubkey_announcement_size = 32 + 1 + min_name_size + 1 + min_symbol_size + 1 + 16 + 1

-- `name` and `symbol` are the bytes of the strings; `decimal` is a u8, `max_supply` a u128. `K` is
-- the type of public keys.
pub record TokenPubkeyAnnouncement (K : Type 0) : Type 0 where
  pub token_pubkey : K
  pub name : List ℕ
  pub symbol : List ℕ
  pub decimal : ℕ
  pub max_supply : ℕ
  pub is_freezable : Bool

-- `TokenPubkeyAnnouncement::new`
unfoldable pub new :
    {K : Type 0}
    → K
    → List ℕ
    → List ℕ
    → ℕ
    → ℕ
    → Bool
    → Result TokenPubkeyAnnouncementParseError (TokenPubkeyAnnouncement K)
new token_pubkey name symbol decimal max_supply is_freezable =
    if ltb (length name) min_name_size || ltb max_name_size (length name)
    then err TokenPubkeyAnnouncementParseError.invalid_name_length
    else if ltb (length symbol) min_symbol_size || ltb max_symbol_size (length symbol)
    then err TokenPubkeyAnnouncementParseError.invalid_symbol_length
    else ok (record {
      token_pubkey = token_pubkey;
      name = name;
      symbol = symbol;
      decimal = decimal;
      max_supply = max_supply;
      is_freezable = is_freezable;
    })

-- A string behind its length in one byte, with the checks of the length and of UTF-8.
unfoldable pub read_string :
    ℕ → ℕ → TokenPubkeyAnnouncementParseError → Reader TokenPubkeyAnnouncementParseError (List ℕ)
read_string lo hi wrong_length = do
  len ← read_u8 TokenPubkeyAnnouncementParseError.invalid_announcement_data
  in_range ← lift (Outcome.guard (leb lo len && leb len hi) wrong_length)
  bytes ← read_exact TokenPubkeyAnnouncementParseError.invalid_announcement_data len
  valid ← lift (Outcome.guard (is_utf8 bytes) invalid_utf8_string)
  pure bytes

module _ (secp : Secp256k1) where
  open secp use {PublicKey}

  unfoldable pub read_fields :
      Reader TokenPubkeyAnnouncementParseError (TokenPubkeyAnnouncement PublicKey)
  read_fields = do
    token_pubkey_bytes ← read token_pubkey_size
    token_pubkey ← lift (
        map_err TokenPubkeyAnnouncementParseError.invalid_token_pubkey
          (token_pubkey_from_bytes secp token_pubkey_bytes))
    name ← read_string min_name_size max_name_size invalid_name_length
    symbol ← read_string min_symbol_size max_symbol_size invalid_symbol_length
    decimal ← read_u8 TokenPubkeyAnnouncementParseError.invalid_announcement_data
    max_supply_bytes ← read_exact TokenPubkeyAnnouncementParseError.invalid_announcement_data 16
    is_freezable ← read_u8 TokenPubkeyAnnouncementParseError.invalid_announcement_data
    pure (record {
      token_pubkey = token_pubkey;
      name = name;
      symbol = symbol;
      decimal = decimal;
      max_supply = from_le_bytes max_supply_bytes;
      is_freezable = not (is_freezable == 0);
    })

  -- Bytes behind the last field are not looked at.
  unfoldable pub from_announcement_data_bytes :
      List ℕ → Result AnnouncementParseError (TokenPubkeyAnnouncement PublicKey)
  from_announcement_data_bytes bytes =
      map_err (λ e. AnnouncementParseError.invalid_announcement_data (DataError.token_pubkey e))
        (if ltb (length bytes) min_token_pubkey_announcement_size
          then err TokenPubkeyAnnouncementParseError.short_length
          else Outcome.◌>>=◌ (read_fields bytes) (λ p. ok p.0))

  unfoldable pub to_announcement_data_bytes : TokenPubkeyAnnouncement PublicKey → List ℕ
  to_announcement_data_bytes a =
      token_pubkey_to_bytes secp a.token_pubkey
      ++ ((length a.name % 256)
          ∷ (a.name
              ++ ((length a.symbol % 256)
                  ∷ (a.symbol
                      ++ (a.decimal
                          ∷ (to_le_bytes 16 a.max_supply
                              ++ ((if a.is_freezable then 1 else 0) ∷ [])))))))
