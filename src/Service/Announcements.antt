-- ===== src/Service/Announcements.antt =====
-- The checks of announcements of crates/tx-check/src/service.rs. A freeze of an output is the one that
-- writes into the storage: the outputs whose freeze it toggles are part of the result.
use lrc.Common.{
  ℕ, ◌+◌, ◌%◌, ◌^◌, ◌==◌, Bool, true, false, not, ◌&&◌, ltb, if◌then◌else◌, List, [], ◌∷◌, Option,
  none, some,
}
use lrc.Outcome.{Result, ok, err, ◌>>=◌, map_err, ok_or}
use lrc.Announcements.TokenPubkey.{TokenPubkeyAnnouncement}
use lrc.Announcements.TokenLogo.{TokenLogoAnnouncement}
use lrc.Announcements.TxFreeze.{TxFreezeAnnouncement}
use lrc.Announcements.PubkeyFreeze.{PubkeyFreezeAnnouncement}
use lrc.Announcements.Issue.{IssueAnnouncement}
use lrc.Announcements.Ownership.{TransferOwnershipAnnouncement}
use lrc.Announcements.Message.{
  Announcement, token_logo, token_pubkey, tx_freeze, pubkey_freeze, issue, transfer_ownership,
}
use lrc.Owner.{TokenPubkeyInfo, TxIn, OwnerError, OwnerCrates, find_with}

-- The part of the storage that these checks use. A query is `none` where it fails; of a stored
-- transaction only whether there is one is read; `toggle_proof_freeze` is whether the write succeeds.
pub record AnnouncementStorage (K : Type 0) : Type 0 where
  pub get_token_pubkey_info : K → Option (Option (TokenPubkeyInfo K))
  pub get_lrc20_transaction_by_id : List ℕ → Option Bool
  pub toggle_proof_freeze : List ℕ → ℕ → Bool

pub data CheckFailure : Type 0 where
  storage_failed : CheckFailure
  owner_failed : OwnerError → CheckFailure

-- Of the announcing transaction its id and inputs are read.
pub record AnnouncingTx : Type 0 where
  pub txid : List ℕ
  pub input : List TxIn

abbrev pub is_some : {A : Type 0} → Option A → Bool
is_some none = false
is_some (some a) = true

-- Where no announcement forbids it, tokens may be frozen.
unfoldable pub allows_freezes : {K : Type 0} → Option (TokenPubkeyInfo K) → Bool
allows_freezes none = true
allows_freezes (some info) = elim info.announcement [
  | none ↦ true
  | some announcement ↦ announcement.is_freezable
]

-- The sum is one of u128, which wraps in a release build.
unfoldable pub exceeds_supply : {K : Type 0} → Option (TokenPubkeyInfo K) → ℕ → Bool
exceeds_supply none issue_amount = false
exceeds_supply (some info) issue_amount = elim info.announcement [
  | none ↦ false
  | some announcement ↦
      not (announcement.max_supply == 0)
      && ltb announcement.max_supply ((info.total_supply + issue_amount) % 2 ^ 128)
]

-- Whether what is known of a token admits a new announcement of it.
unfoldable pub may_announce : {K : Type 0} → Option (TokenPubkeyInfo K) → ℕ → Bool
may_announce none max_supply = true
may_announce (some info) max_supply =
    not (is_some info.announcement)
    && not (not (max_supply == 0) && ltb max_supply info.total_supply)

unfoldable pub is_announced : {K : Type 0} → Option (TokenPubkeyInfo K) → Bool
is_announced none = false
is_announced (some info) = is_some info.announcement

-- A check that writes nothing.
abbrev pub read_only : Result CheckFailure Bool → Result CheckFailure (Bool × List (List ℕ × ℕ))
read_only r = r >>= λ is_valid. ok (is_valid, [])

-- The search for the owner's input is `find_owner_in_txinputs`.
module _ {K : Type 0} (storage : AnnouncementStorage K) (crates : OwnerCrates K) where
  abbrev pub token_info : K → Result CheckFailure (Option (TokenPubkeyInfo K))
  token_info token = ok_or (storage.get_token_pubkey_info token) storage_failed

  unfoldable pub has_owner : List TxIn → K → Result CheckFailure Bool
  has_owner inputs token = do
    info ← token_info token
    owner_input ← map_err owner_failed (find_with crates inputs token info)
    ok (is_some owner_input)

  unfoldable pub check_token_pubkey_announcement :
      AnnouncingTx → TokenPubkeyAnnouncement K → Result CheckFailure Bool
  check_token_pubkey_announcement tx a = do
    owned ← has_owner tx.input a.token_pubkey
    let known = token_info a.token_pubkey >>= λ info. ok (may_announce info a.max_supply)
    if owned then known else ok false

  unfoldable pub check_token_logo_announcement :
      AnnouncingTx → TokenLogoAnnouncement K → Result CheckFailure Bool
  check_token_logo_announcement tx a = do
    owned ← has_owner tx.input a.token_pubkey
    let known = token_info a.token_pubkey >>= λ info. ok (is_announced info)
    if owned then known else ok false

  -- The write, and that it was made.
  unfoldable pub toggle : List ℕ → ℕ → Result CheckFailure (Bool × List (List ℕ × ℕ))
  toggle txid vout =
      if storage.toggle_proof_freeze txid vout
      then ok (true, (txid, vout) ∷ [])
      else err storage_failed

  unfoldable pub check_tx_freeze_announcement :
      AnnouncingTx → TxFreezeAnnouncement K → Result CheckFailure (Bool × List (List ℕ × ℕ))
  check_tx_freeze_announcement tx a = do
    info ← token_info a.token_pubkey
    let owner = has_owner tx.input a.token_pubkey
    let toggled = toggle a.outpoint.txid a.outpoint.vout
    let checked = owner >>= λ owned. if owned then toggled else ok (false, [])
    if allows_freezes info then checked else ok (false, [])

  unfoldable pub check_pubkey_freeze_announcement :
      AnnouncingTx → PubkeyFreezeAnnouncement K → Result CheckFailure Bool
  check_pubkey_freeze_announcement tx a = do
    info ← token_info a.token_pubkey
    let owner = has_owner tx.input a.token_pubkey
    if allows_freezes info then owner else ok false

  unfoldable pub check_issue_announcement :
      AnnouncingTx → IssueAnnouncement K → Result CheckFailure Bool
  check_issue_announcement tx a = do
    is_tx_already_exists ← ok_or (storage.get_lrc20_transaction_by_id tx.txid) storage_failed
    let new = has_owner tx.input a.token_pubkey >>= λ owned.
        (let known =
            token_info a.token_pubkey >>= λ info. ok (not (exceeds_supply info a.amount)) in
          if owned then known else ok false)
    if is_tx_already_exists then ok true else new

  unfoldable pub check_transfer_ownership_announcement :
      AnnouncingTx → TransferOwnershipAnnouncement K → Result CheckFailure Bool
  check_transfer_ownership_announcement tx a = has_owner tx.input a.token_pubkey

  unfoldable pub check_announcements :
      AnnouncingTx → Announcement K → Result CheckFailure (Bool × List (List ℕ × ℕ))
  check_announcements tx (token_pubkey a) = read_only (check_token_pubkey_announcement tx a)
  check_announcements tx (token_logo a) = read_only (check_token_logo_announcement tx a)
  check_announcements tx (tx_freeze a) = check_tx_freeze_announcement tx a
  check_announcements tx (pubkey_freeze a) = read_only (check_pubkey_freeze_announcement tx a)
  check_announcements tx (issue a) = read_only (check_issue_announcement tx a)
  check_announcements tx (transfer_ownership a) =
      read_only (check_transfer_ownership_announcement tx a)
