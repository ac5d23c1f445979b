-- ===== src/Announcements/Issue.antt =====
-- crates/types/src/announcements/issue.rs: an issuer issues an amount of a token.
use lrc.Common.{
  ℕ, ◌+◌, ◌≡◌, ◌<◌, ◌^◌, List, ◌++◌, ◌||◌, length, ltb, ◌==◌, if◌then◌else◌, take, drop, arith,
  length-append, take-append, drop-append,
}
use lrc.Common.Words.{to_le_bytes, from_le_bytes, from_le_bytes-to_le_bytes, length-to_le_bytes}
use lrc.Outcome.{Result, ok, err, ◌>>=◌, map_err, ok_or}
use lrc.Keys.{Secp256k1}
use lrc.Receipt.{
  token_pubkey_size, token_pubkey_to_bytes, token_pubkey_from_bytes, TokenPubkeyParseError,
}
use lrc.Receipt.Laws.{length-token_pubkey_to_bytes, token_pubkey_from_bytes-token_pubkey_to_bytes}
use lrc.Announcements.Errors.{IssueAnnouncementParseError, AnnouncementParseError, DataError}

abbrev pub issue_announcement_min_size : ℕ
issue_announcement_min_size = 32 + 16

abbrev pub issue_announcement_max_size : ℕ
issue_announcement_max_size = token_pubkey_size + 16

-- `amount` is a u128.
pub record IssueAnnouncement (K : Type 0) : Type 0 where
  pub token_pubkey : K
  pub amount : ℕ

module _ (secp : Secp256k1) where
  open secp use {PublicKey, from_xonly_slice}

  unfoldable pub parse_token_pubkey : List ℕ → Result IssueAnnouncementParseError PublicKey
  parse_token_pubkey bytes =
      if length bytes == issue_announcement_min_size
      then ok_or (from_xonly_slice (take 32 bytes)) (
          IssueAnnouncementParseError.invalid_token_pubkey TokenPubkeyParseError.invalid_public_key)
      else map_err IssueAnnouncementParseError.invalid_token_pubkey
          (token_pubkey_from_bytes secp (take token_pubkey_size bytes))

  unfoldable pub parse : List ℕ → Result IssueAnnouncementParseError (IssueAnnouncement PublicKey)
  parse bytes =
      if ltb (length bytes) issue_announcement_min_size
        || ltb issue_announcement_max_size (length bytes)
      then err (IssueAnnouncementParseError.invalid_size (length bytes))
      else do
        token_pubkey ← parse_token_pubkey bytes
        let index = if length bytes == issue_announcement_min_size then 32 else token_pubkey_size
        let amount = from_le_bytes (drop index bytes)
        ok (record { token_pubkey = token_pubkey; amount = amount })

  unfoldable pub from_announcement_data_bytes :
      List ℕ → Result AnnouncementParseError (IssueAnnouncement PublicKey)
  unfolding parse
  from_announcement_data_bytes bytes =
      map_err (λ e. AnnouncementParseError.invalid_announcement_data (DataError.issue e))
        (parse bytes)

  unfoldable pub to_announcement_data_bytes : IssueAnnouncement PublicKey → List ℕ
  to_announcement_data_bytes a =
      token_pubkey_to_bytes secp a.token_pubkey ++ to_le_bytes 16 a.amount

  pub length-to_announcement_data_bytes :
      (a : IssueAnnouncement PublicKey) → length (to_announcement_data_bytes a) ≡ 49
  unfolding to_announcement_data_bytes
  length-to_announcement_data_bytes a = omega (
    arith,
    length-append (token_pubkey_to_bytes secp a.token_pubkey) (to_le_bytes 16 a.amount),
    length-token_pubkey_to_bytes secp a.token_pubkey,
    length-to_le_bytes 16 a.amount,
  )

  -- The data bytes of an issue of a u128 amount are read back as the announcement.
  pub from-to_announcement_data_bytes :
      (a : IssueAnnouncement PublicKey)
      → a.amount < 2 ^ 128
      → from_announcement_data_bytes (to_announcement_data_bytes a) ≡ ok a
  unfolding from_announcement_data_bytes to_announcement_data_bytes parse_token_pubkey
  from-to_announcement_data_bytes a h = rw (
    size,
    take-append 33 key amount (length-token_pubkey_to_bytes secp a.token_pubkey),
    drop-append 33 key amount (length-token_pubkey_to_bytes secp a.token_pubkey),
    token_pubkey_from_bytes-token_pubkey_to_bytes secp a.token_pubkey,
    from_le_bytes-to_le_bytes 16 a.amount h,
  )
    where
      key : List ℕ
      key = token_pubkey_to_bytes secp a.token_pubkey

      amount : List ℕ
      amount = to_le_bytes 16 a.amount

      size : length (key ++ amount) ≡ 49
      size = length-to_announcement_data_bytes a
