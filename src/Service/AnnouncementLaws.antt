-- ===== src/Service/AnnouncementLaws.antt =====
-- What an accepted announcement has.
use lrc.Common.{
  ℕ, ◌≡◌, ◌⊎◌, Bool, true, false, not, if◌then◌else◌, List, [], ◌∷◌, Option, some, arith, inl, inr,
  Bool-cases, ap, ◌∙◌,
}
use lrc.Outcome.{Result, ok, ok_or, >>=-eq-ok, ok_or-eq-ok}
use lrc.Announcements.TokenPubkey.{TokenPubkeyAnnouncement}
use lrc.Announcements.TxFreeze.{TxFreezeAnnouncement}
use lrc.Announcements.TokenLogo.{TokenLogoAnnouncement}
use lrc.Announcements.PubkeyFreeze.{PubkeyFreezeAnnouncement}
use lrc.Announcements.Issue.{IssueAnnouncement}
use lrc.Announcements.Message.{
  Announcement, token_logo, token_pubkey, tx_freeze, pubkey_freeze, issue, transfer_ownership,
  token_pubkey_of,
}
use lrc.Owner.{TokenPubkeyInfo, OwnerCrates}
use lrc.Service.Announcements.{
  AnnouncementStorage, CheckFailure, AnnouncingTx, allows_freezes, exceeds_supply, token_info,
  has_owner, may_announce, check_token_pubkey_announcement, is_announced,
  check_token_logo_announcement, toggle, check_tx_freeze_announcement,
  check_pubkey_freeze_announcement, check_issue_announcement, check_transfer_ownership_announcement,
  read_only, check_announcements,
}
use lrc.Service.Permissions.{
  Permitted, may_announce-Permitted, is_announced-Permitted, allows_freezes-Freezable,
  exceeds_supply-Permitted,
}
use lrc.Service.Owned.{
  IsOwned, HasOwner, IsOwned-HasOwner, has_owner-IsOwned, owned_then, allowed_owner,
}

-- The outputs whose freeze an accepted announcement toggles.
abbrev pub toggles : {K : Type 0} → Announcement K → List (List ℕ × ℕ)
toggles (tx_freeze a) = (a.outpoint.txid, a.outpoint.vout) ∷ []
toggles (token_logo a) = []
toggles (token_pubkey a) = []
toggles (pubkey_freeze a) = []
toggles (issue a) = []
toggles (transfer_ownership a) = []

module _ {K : Type 0} (storage : AnnouncementStorage K) (crates : OwnerCrates K) where
  token_pubkey_sound :
      (tx : AnnouncingTx) (a : TokenPubkeyAnnouncement K)
      → check_token_pubkey_announcement storage crates tx a ≡ ok true
      → (info : Option (TokenPubkeyInfo K)) × IsOwned storage crates tx.input a.token_pubkey info
        × (may_announce info a.max_supply ≡ true)
  unfolding check_token_pubkey_announcement
  token_pubkey_sound tx a e =
      owned_then storage crates tx.input a.token_pubkey (λ info. may_announce info a.max_supply) e

  token_logo_sound :
      (tx : AnnouncingTx) (a : TokenLogoAnnouncement K)
      → check_token_logo_announcement storage crates tx a ≡ ok true
      → (info : Option (TokenPubkeyInfo K)) × IsOwned storage crates tx.input a.token_pubkey info
        × (is_announced info ≡ true)
  unfolding check_token_logo_announcement
  token_logo_sound tx a e = owned_then storage crates tx.input a.token_pubkey is_announced e

  tx_freeze_sound :
      (tx : AnnouncingTx) (a : TxFreezeAnnouncement K) (toggled : List (List ℕ × ℕ))
      → check_tx_freeze_announcement storage crates tx a ≡ ok (true, toggled)
      → (info : Option (TokenPubkeyInfo K)) × IsOwned storage crates tx.input a.token_pubkey info
        × (allows_freezes info ≡ true)
        × (toggled ≡ (a.outpoint.txid, a.outpoint.vout) ∷ [])
  unfolding check_tx_freeze_announcement toggle
  tx_freeze_sound tx a toggled e =
      let (info, asked, e') = >>=-eq-ok (token_info storage crates a.token_pubkey) _ e in
      elim (Bool-cases (allows_freezes info)) [
        | inr forbidden ↦ absurd (ground (arith, e', forbidden))
        | inl allowed ↦
            let (owned, first, e'') =
              >>=-eq-ok (has_owner storage crates tx.input a.token_pubkey)
                (λ owned.
                  if owned
                  then toggle storage crates a.outpoint.txid a.outpoint.vout
                  else ok (false, []))
                {b = (true, toggled)} (ground (arith, e', allowed)) in
            elim (Bool-cases owned) [
              | inr nobody ↦ absurd (ground (arith, e'', nobody))
              | inl is ↦
                  let (info', is_owned, allowed') =
                    allowed_owner storage crates tx.input a.token_pubkey info asked allowed
                      (first ∙ ap ok is) in
                  (info', is_owned, allowed', ground (arith, e'', is))
            ]
      ]

  pubkey_freeze_sound :
      (tx : AnnouncingTx) (a : PubkeyFreezeAnnouncement K)
      → check_pubkey_freeze_announcement storage crates tx a ≡ ok true
      → (info : Option (TokenPubkeyInfo K)) × IsOwned storage crates tx.input a.token_pubkey info
        × (allows_freezes info ≡ true)
  unfolding check_pubkey_freeze_announcement
  pubkey_freeze_sound tx a e =
      let (info, asked, e') = >>=-eq-ok (token_info storage crates a.token_pubkey) _ e in
      elim (Bool-cases (allows_freezes info)) [
        | inr forbidden ↦ absurd (ground (arith, e', forbidden))
        | inl allowed ↦
            allowed_owner storage crates tx.input a.token_pubkey info asked allowed
              (ground (arith, e', allowed))
      ]

  issue_sound :
      (tx : AnnouncingTx) (a : IssueAnnouncement K)
      → check_issue_announcement storage crates tx a ≡ ok true
      → (storage.get_lrc20_transaction_by_id tx.txid ≡ some true)
        ⊎ ((info : Option (TokenPubkeyInfo K)) × IsOwned storage crates tx.input a.token_pubkey info
            × (exceeds_supply info a.amount ≡ false))
  unfolding check_issue_announcement
  issue_sound tx a e =
      let (exists, asked, e') =
        >>=-eq-ok (ok_or (storage.get_lrc20_transaction_by_id tx.txid) CheckFailure.storage_failed)
          _ e in
      elim (Bool-cases exists) [
        | inl stored ↦ inl (
            ok_or-eq-ok (storage.get_lrc20_transaction_by_id tx.txid) CheckFailure.storage_failed
              (asked ∙ ap ok stored))
        | inr new ↦
            let (info, is_owned, ok_supply) =
              owned_then storage crates tx.input a.token_pubkey
                (λ info. not (exceeds_supply info a.amount)) (ground (arith, e', new)) in
            inr (info, is_owned, ground (arith, ok_supply))
      ]

  -- An issue that the storage has already is not looked at.
  abbrev pub IsStoredIssue : AnnouncingTx → Announcement K → Type 0
  IsStoredIssue tx (issue a) = storage.get_lrc20_transaction_by_id tx.txid ≡ some true
  IsStoredIssue tx (token_logo a) = ⊥
  IsStoredIssue tx (token_pubkey a) = ⊥
  IsStoredIssue tx (tx_freeze a) = ⊥
  IsStoredIssue tx (pubkey_freeze a) = ⊥
  IsStoredIssue tx (transfer_ownership a) = ⊥

  read_only-eq-ok :
      (r : Result CheckFailure Bool) (toggled : List (List ℕ × ℕ))
      → read_only r ≡ ok (true, toggled)
      → (r ≡ ok true) × (toggled ≡ [])
  read_only-eq-ok r toggled e =
      let (valid, checked, e') = >>=-eq-ok r (λ is_valid. ok (is_valid, [])) e in
      (ground (arith, checked, e'), ground (arith, e'))

  -- Where an announcement is accepted, an input of its transaction spends for the owner of the token, or
  -- with the token's key or its receipt key where no owner's script is known; what the storage knows of
  -- the token permits the announcement, the supply behind an issue taken modulo 2^128; and only a freeze
  -- of an output toggles one, the announced one. Or the announcement is an issue whose transaction the
  -- storage has, and nothing is toggled.
  pub check_announcements_sound :
      (tx : AnnouncingTx) (a : Announcement K) (toggled : List (List ℕ × ℕ))
      → check_announcements storage crates tx a ≡ ok (true, toggled)
      → ((toggled ≡ toggles a)
          × (IsStoredIssue tx a
              ⊎ ((info : Option (TokenPubkeyInfo K)) × HasOwner storage crates tx.input
                    (token_pubkey_of a)
                    info
                  × Permitted info a)))
  unfolding check_announcements token_pubkey_of check_transfer_ownership_announcement
  check_announcements_sound tx (token_pubkey a) toggled e =
      let (valid, nothing) =
        read_only-eq-ok (check_token_pubkey_announcement storage crates tx a) toggled e in
      let (info, owned, fits) = token_pubkey_sound tx a valid in
      (
        nothing,
        inr (
          info,
          IsOwned-HasOwner storage crates tx.input a.token_pubkey info owned,
          may_announce-Permitted info a fits,
        ),
      )
  check_announcements_sound tx (token_logo a) toggled e =
      let (valid, nothing) =
        read_only-eq-ok (check_token_logo_announcement storage crates tx a) toggled e in
      let (info, owned, known) = token_logo_sound tx a valid in
      (
        nothing,
        inr (
          info,
          IsOwned-HasOwner storage crates tx.input a.token_pubkey info owned,
          is_announced-Permitted info a known,
        ),
      )
  check_announcements_sound tx (tx_freeze a) toggled e =
      let (info, owned, allowed, one) = tx_freeze_sound tx a toggled e in
      (
        one,
        inr (
          info,
          IsOwned-HasOwner storage crates tx.input a.token_pubkey info owned,
          allows_freezes-Freezable info allowed,
        ),
      )
  check_announcements_sound tx (pubkey_freeze a) toggled e =
      let (valid, nothing) =
        read_only-eq-ok (check_pubkey_freeze_announcement storage crates tx a) toggled e in
      let (info, owned, allowed) = pubkey_freeze_sound tx a valid in
      (
        nothing,
        inr (
          info,
          IsOwned-HasOwner storage crates tx.input a.token_pubkey info owned,
          allows_freezes-Freezable info allowed,
        ),
      )
  check_announcements_sound tx (issue a) toggled e =
      let (valid, nothing) =
        read_only-eq-ok (check_issue_announcement storage crates tx a) toggled e in
      elim (issue_sound tx a valid) [
        | inl stored ↦ (nothing, inl stored)
        | inr (info, owned, within) ↦ (
          nothing,
          inr (
            info,
            IsOwned-HasOwner storage crates tx.input a.token_pubkey info owned,
            exceeds_supply-Permitted info a within,
          ),
        )
      ]
  check_announcements_sound tx (transfer_ownership a) toggled e =
      let (valid, nothing) =
        read_only-eq-ok (check_transfer_ownership_announcement storage crates tx a) toggled e in
      let (info, owned) = has_owner-IsOwned storage crates tx.input a.token_pubkey valid in
      (nothing, inr (info, IsOwned-HasOwner storage crates tx.input a.token_pubkey info owned, tt))
