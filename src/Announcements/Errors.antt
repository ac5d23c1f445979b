-- ===== src/Announcements/Errors.antt =====
-- The parse errors of crates/types/src/announcements. `AnnouncementParseError` keeps only the text of
-- the error of a kind of message; the model keeps the error.
use lrc.Common.{ℕ}
use lrc.Receipt.{TokenPubkeyParseError}

-- token_pubkey.rs
pub data TokenPubkeyAnnouncementParseError : Type 0 where
  short_length : TokenPubkeyAnnouncementParseError
  invalid_announcement_data : TokenPubkeyAnnouncementParseError
  invalid_utf8_string : TokenPubkeyAnnouncementParseError
  invalid_symbol_length : TokenPubkeyAnnouncementParseError
  invalid_name_length : TokenPubkeyAnnouncementParseError
  invalid_token_pubkey : TokenPubkeyParseError → TokenPubkeyAnnouncementParseError

-- token_logo.rs
pub data TokenLogoAnnouncementParseError : Type 0 where
  short_length : TokenLogoAnnouncementParseError
  invalid_announcement_data : TokenLogoAnnouncementParseError
  invalid_utf8_string : TokenLogoAnnouncementParseError
  invalid_url_length : TokenLogoAnnouncementParseError
  invalid_token_pubkey : TokenPubkeyParseError → TokenLogoAnnouncementParseError

-- freeze/outpoint.rs
pub data FreezeAnnouncementParseError : Type 0 where
  invalid_size : ℕ → FreezeAnnouncementParseError
  invalid_tx_hash : FreezeAnnouncementParseError
  invalid_token_pubkey : TokenPubkeyParseError → FreezeAnnouncementParseError

-- freeze/pubkey.rs
pub data PubkeyFreezeAnnouncementParseError : Type 0 where
  invalid_size : ℕ → PubkeyFreezeAnnouncementParseError
  invalid_public_key : PubkeyFreezeAnnouncementParseError
  invalid_token_pubkey : TokenPubkeyParseError → PubkeyFreezeAnnouncementParseError

-- issue.rs
pub data IssueAnnouncementParseError : Type 0 where
  invalid_size : ℕ → IssueAnnouncementParseError
  invalid_token_pubkey : TokenPubkeyParseError → IssueAnnouncementParseError

-- transfer_ownership.rs
pub data TransferOwnershipAnnouncementParseError : Type 0 where
  invalid_size : ℕ → TransferOwnershipAnnouncementParseError
  invalid_token_pubkey : TokenPubkeyParseError → TransferOwnershipAnnouncementParseError

-- What `InvalidAnnouncementData` prints.
pub data DataError : Type 0 where
  token_pubkey : TokenPubkeyAnnouncementParseError → DataError
  token_logo : TokenLogoAnnouncementParseError → DataError
  tx_freeze : FreezeAnnouncementParseError → DataError
  pubkey_freeze : PubkeyFreezeAnnouncementParseError → DataError
  issue : IssueAnnouncementParseError → DataError
  transfer_ownership : TransferOwnershipAnnouncementParseError → DataError

-- announcement.rs
pub data AnnouncementParseError : Type 0 where
  short_length : AnnouncementParseError
  invalid_prefix : AnnouncementParseError
  unknown_announcement_kind : AnnouncementParseError
  invalid_announcement_data : DataError → AnnouncementParseError
