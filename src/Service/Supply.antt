-- ===== src/Service/Supply.antt =====
-- The maximal supply of a token, and issues.
use lrc.Common.{ℕ, ◌+◌, ◌^◌, ◌≤◌, ◌≡◌, true, false, List, Option, some, arith, refl, ◌<◌}
use lrc.Outcome.{ok}
use lrc.Announcements.TokenPubkey.{TokenPubkeyAnnouncement}
use lrc.Announcements.Issue.{IssueAnnouncement}
use lrc.Owner.{TokenPubkeyInfo, TxIn, OwnerCrates}
use lrc.Service.Announcements.{
  AnnouncementStorage, AnnouncingTx, exceeds_supply, has_owner, check_issue_announcement,
}
use lrc.Service.Owned.{IsOwned}

module _ {K : Type 0} (storage : AnnouncementStorage K) (crates : OwnerCrates K) where
  has_owner-IsOwned-true :
      (inputs : List TxIn) (token : K) (info : Option (TokenPubkeyInfo K))
      → IsOwned storage crates inputs token info
      → has_owner storage crates inputs token ≡ ok true
  unfolding has_owner
  has_owner-IsOwned-true inputs token info owned = rw (owned.stored, owned.found) refl

  -- A new issue by the owner of an announced token is accepted where its amount brings the supply to
  -- 2^128 and an amount within the maximal supply: the sum wraps, so the maximum is not met.
  pub check_issue_announcement_wraps :
      (tx : AnnouncingTx) (a : IssueAnnouncement K) (info : TokenPubkeyInfo K)
      (announcement : TokenPubkeyAnnouncement K) (n : ℕ)
      → storage.get_lrc20_transaction_by_id tx.txid ≡ some false
      → IsOwned storage crates tx.input a.token_pubkey (some info)
      → info.announcement ≡ some announcement
      → announcement.max_supply < 2 ^ 128
      → info.total_supply + a.amount ≡ 2 ^ 128 + n
      → n ≤ announcement.max_supply
      → check_issue_announcement storage crates tx a ≡ ok true
  unfolding check_issue_announcement exceeds_supply
  check_issue_announcement_wraps tx a info announcement n new owned announced small sum within =
      let owner : has_owner storage crates tx.input a.token_pubkey ≡ ok true =
        has_owner-IsOwned-true tx.input a.token_pubkey (some info) owned in
      rw (new, owner, owned.stored, announced, sum) (ground arith)
