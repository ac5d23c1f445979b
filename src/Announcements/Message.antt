-- ===== src/Announcements/Message.antt =====
-- crates/types/src/announcements/announcement.rs and mod.rs: the sum of the announcements, their
-- bytes behind the prefix and the kind, and their scripts.
pub mod RoundTrip
pub mod Kinds
use lrc.Common.{ℕ, List, [], bytes_eq, drop, if◌then◌else◌, length, ltb, not, take, ◌++◌, ◌∷◌}
use lrc.Keys.{Secp256k1}
use lrc.Announcements.Errors.{AnnouncementParseError}
use lrc.Announcements.Script.{
  Scripts, announcement_prefix, ParseOpReturnError, parse_op_return_script,
}
use lrc.Announcements.TokenPubkey.{TokenPubkeyAnnouncement}
use lrc.Announcements.TokenLogo.{TokenLogoAnnouncement}
use lrc.Announcements.TxFreeze.{TxFreezeAnnouncement}
use lrc.Announcements.PubkeyFreeze.{PubkeyFreezeAnnouncement}
use lrc.Announcements.Issue.{IssueAnnouncement}
use lrc.Announcements.Ownership.{TransferOwnershipAnnouncement, Network}
use lrc.Outcome.{◌>>◌, Result, err, guard, ok, ◌>>=◌}
use lrc.Outcome
use lrc.Announcements.TokenPubkey
use lrc.Announcements.TokenLogo
use lrc.Announcements.TxFreeze
use lrc.Announcements.PubkeyFreeze
use lrc.Announcements.Issue
use lrc.Announcements.Ownership

abbrev pub token_pubkey_announcement_kind : List ℕ
token_pubkey_announcement_kind = 0 ∷ 0 ∷ []

abbrev pub tx_freeze_announcement_kind : List ℕ
tx_freeze_announcement_kind = 0 ∷ 1 ∷ []

abbrev pub issue_announcement_kind : List ℕ
issue_announcement_kind = 0 ∷ 2 ∷ []

abbrev pub transfer_ownership_announcement_kind : List ℕ
transfer_ownership_announcement_kind = 0 ∷ 3 ∷ []

abbrev pub pubkey_freeze_announcement_kind : List ℕ
pubkey_freeze_announcement_kind = 0 ∷ 5 ∷ []

abbrev pub token_logo_announcement_kind : List ℕ
token_logo_announcement_kind = 0 ∷ 6 ∷ []

pub data Announcement (K : Type 0) : Type 0 where
  token_logo : TokenLogoAnnouncement K → Announcement K
  token_pubkey : TokenPubkeyAnnouncement K → Announcement K
  tx_freeze : TxFreezeAnnouncement K → Announcement K
  pubkey_freeze : PubkeyFreezeAnnouncement K → Announcement K
  issue : IssueAnnouncement K → Announcement K
  transfer_ownership : TransferOwnershipAnnouncement K → Announcement K

-- `Announcement::token_pubkey`
unfoldable pub token_pubkey_of : {K : Type 0} → Announcement K → K
token_pubkey_of (token_logo a) = a.token_pubkey
token_pubkey_of (token_pubkey a) = a.token_pubkey
token_pubkey_of (tx_freeze a) = a.token_pubkey
token_pubkey_of (pubkey_freeze a) = a.token_pubkey
token_pubkey_of (issue a) = a.token_pubkey
token_pubkey_of (transfer_ownership a) = a.token_pubkey

unfoldable pub kind : {K : Type 0} → Announcement K → List ℕ
kind (token_logo a) = token_logo_announcement_kind
kind (token_pubkey a) = token_pubkey_announcement_kind
kind (tx_freeze a) = tx_freeze_announcement_kind
kind (pubkey_freeze a) = pubkey_freeze_announcement_kind
kind (issue a) = issue_announcement_kind
kind (transfer_ownership a) = transfer_ownership_announcement_kind

unfoldable pub minimal_block_height : {K : Type 0} → Announcement K → Network → ℕ
minimal_block_height (transfer_ownership a) network = Ownership.minimal_block_height network
minimal_block_height _ network = 0

-- `AnyAnnouncement::from_bytes`, for the parser of one kind. The two bytes of the kind are skipped.
unfoldable pub from_bytes :
    {T : Type 0}
    → (List ℕ → Result AnnouncementParseError T)
    → List ℕ
    → Result AnnouncementParseError T
from_bytes parse_data value = do
  guard (not (ltb (length value) 7)) AnnouncementParseError.short_length
  guard (bytes_eq (take 5 value) announcement_prefix) AnnouncementParseError.invalid_prefix
  parse_data (drop 7 value)

module _ (secp : Secp256k1) where
  open secp use {PublicKey}

  unfoldable pub to_announcement_data_bytes : Announcement PublicKey → List ℕ
  to_announcement_data_bytes (token_logo a) = TokenLogo.to_announcement_data_bytes secp a
  to_announcement_data_bytes (token_pubkey a) = TokenPubkey.to_announcement_data_bytes secp a
  to_announcement_data_bytes (tx_freeze a) = TxFreeze.to_announcement_data_bytes secp a
  to_announcement_data_bytes (pubkey_freeze a) = PubkeyFreeze.to_announcement_data_bytes secp a
  to_announcement_data_bytes (issue a) = Issue.to_announcement_data_bytes secp a
  to_announcement_data_bytes (transfer_ownership a) = Ownership.to_announcement_data_bytes secp a

  unfoldable pub to_bytes : Announcement PublicKey → List ℕ
  to_bytes a = announcement_prefix ++ (kind a ++ to_announcement_data_bytes a)

  -- The `match` on the kind.
  unfoldable pub parse_kind :
      List ℕ → List ℕ → Result AnnouncementParseError (Announcement PublicKey)
  parse_kind k bytes =
      if bytes_eq k token_pubkey_announcement_kind
      then (TokenPubkey.from_announcement_data_bytes secp bytes >>= λ a. ok (token_pubkey a))
      else if bytes_eq k tx_freeze_announcement_kind
      then (TxFreeze.from_announcement_data_bytes secp bytes >>= λ a. ok (tx_freeze a))
      else if bytes_eq k pubkey_freeze_announcement_kind
      then (PubkeyFreeze.from_announcement_data_bytes secp bytes >>= λ a. ok (pubkey_freeze a))
      else if bytes_eq k issue_announcement_kind
      then (Issue.from_announcement_data_bytes secp bytes >>= λ a. ok (issue a))
      else if bytes_eq k transfer_ownership_announcement_kind
      then (Ownership.from_announcement_data_bytes secp bytes >>= λ a. ok (transfer_ownership a))
      else if bytes_eq k token_logo_announcement_kind
      then (TokenLogo.from_announcement_data_bytes secp bytes >>= λ a. ok (token_logo a))
      else err AnnouncementParseError.unknown_announcement_kind

  unfoldable pub announcement_from_bytes :
      List ℕ → Result AnnouncementParseError (Announcement PublicKey)
  announcement_from_bytes bytes = do
    guard (not (ltb (length bytes) 7)) AnnouncementParseError.short_length
    guard (bytes_eq (take 5 bytes) announcement_prefix) AnnouncementParseError.invalid_prefix
    parse_kind (take 2 (drop 5 bytes)) (drop 7 bytes)

  unfoldable pub to_script : Scripts → Announcement PublicKey → List ℕ
  to_script scripts a = scripts.op_return_push (to_bytes a)

  unfoldable pub announcement_from_script :
      Scripts → List ℕ → Result (ParseOpReturnError AnnouncementParseError) (Announcement PublicKey)
  announcement_from_script scripts script =
      parse_op_return_script scripts announcement_from_bytes script
