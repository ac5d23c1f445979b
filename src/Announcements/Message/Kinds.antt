-- ===== src/Announcements/Message/Kinds.antt =====
-- What the prefix and the two bytes of the kind decide, and what they do not.
use lrc.Common.{
  ℕ, Bool, List, ap, bytes_eq, bytes_eq→eq, false, if◌then◌else◌, refl, sym, true, ◌∙◌, ◌≡◌, drop,
  drop-append, length, length-append, ltb, not, take, take-append,
}
use lrc.Keys.{Secp256k1}
use lrc.Announcements.Errors.{AnnouncementParseError}
use lrc.Announcements.Message.{
  Announcement, kind, announcement_from_bytes, from_bytes, issue_announcement_kind, parse_kind,
  pubkey_freeze_announcement_kind, to_announcement_data_bytes, to_bytes,
  token_logo_announcement_kind, token_pubkey_announcement_kind,
  transfer_ownership_announcement_kind, tx_freeze_announcement_kind,
}
use lrc.Outcome.{Result, err, ok, ok-injective, ◌>>=◌, >>=-eq-ok, guard, guard-eq-ok}
use lrc.Common.Words.{from_le_bytes}
use lrc.Receipt.{token_pubkey_to_bytes}
use lrc.Announcements.Ownership.{TransferOwnershipAnnouncement}
use lrc.Announcements.Script.{announcement_prefix}
use lrc.Receipt.Laws.{length-token_pubkey_to_bytes, token_pubkey_from_bytes-token_pubkey_to_bytes}
use lrc.Announcements.TokenPubkey
use lrc.Announcements.TokenLogo
use lrc.Announcements.TxFreeze
use lrc.Announcements.PubkeyFreeze
use lrc.Announcements.Issue
use lrc.Announcements.Ownership

module _ (secp : Secp256k1) where
  open secp use {PublicKey}

  tagged :
      {T : Type 0} (tag : T → Announcement PublicKey) (k : List ℕ)
      → ((t : T) → kind (tag t) ≡ k)
      → (r : Result AnnouncementParseError T) (a : Announcement PublicKey)
      → (r >>= λ t. ok (tag t)) ≡ ok a
      → kind a ≡ k
  tagged tag k h (ok t) a e = ap kind (sym (ok-injective (tag t) a e)) ∙ h t
  tagged tag k h (err x) a e = cc

  if_cases :
      {T : Type 0} (P : Type 0) (b : Bool) (x y z : T)
      → (b ≡ true → x ≡ z → P)
      → (b ≡ false → y ≡ z → P)
      → (if b then x else y) ≡ z
      → P
  if_cases P true x y z f g e = f refl e
  if_cases P false x y z f g e = g refl e

  one_kind :
      {T : Type 0} (tag : T → Announcement PublicKey) (c k : List ℕ) (bytes : List ℕ)
      (r : Result AnnouncementParseError T)
      (rest : Result AnnouncementParseError (Announcement PublicKey)) (a : Announcement PublicKey)
      → ((t : T) → kind (tag t) ≡ c)
      → (rest ≡ ok a → kind a ≡ k)
      → (if bytes_eq k c then (r >>= λ t. ok (tag t)) else rest) ≡ ok a
      → kind a ≡ k
  one_kind tag c k bytes r rest a h g e =
      if_cases (kind a ≡ k) (bytes_eq k c) _ rest (ok a)
        (λ same x. tagged tag c h r a x ∙ sym (bytes_eq→eq k c same)) (λ _ x. g x) e

  not_ok :
      {e : AnnouncementParseError} (a : Announcement PublicKey)
      → ◌≡◌ {A = Result AnnouncementParseError (Announcement PublicKey)} (err e) (ok a)
      → ⊥
  not_ok a h = cc

  parse_kind_kind :
      (k bytes : List ℕ) (a : Announcement PublicKey) → parse_kind secp k bytes ≡ ok a → kind a ≡ k
  unfolding parse_kind kind
  parse_kind_kind k bytes a =
      one_kind Announcement.token_pubkey token_pubkey_announcement_kind k bytes
        (TokenPubkey.from_announcement_data_bytes secp bytes) _ a (λ t. refl)
        (one_kind Announcement.tx_freeze tx_freeze_announcement_kind k bytes
          (TxFreeze.from_announcement_data_bytes secp bytes) _ a (λ t. refl)
          (one_kind Announcement.pubkey_freeze pubkey_freeze_announcement_kind k bytes
            (PubkeyFreeze.from_announcement_data_bytes secp bytes) _ a (λ t. refl)
            (one_kind Announcement.issue issue_announcement_kind k bytes
              (Issue.from_announcement_data_bytes secp bytes) _ a (λ t. refl)
              (one_kind Announcement.transfer_ownership transfer_ownership_announcement_kind k bytes
                (Ownership.from_announcement_data_bytes secp bytes) _ a (λ t. refl)
                (one_kind Announcement.token_logo token_logo_announcement_kind k bytes
                  (TokenLogo.from_announcement_data_bytes secp bytes) _ a (λ t. refl)
                  (λ e. absurd (not_ok a e)))))))

  -- A message that is read has the prefix in its first five bytes and its kind in the next two.
  pub announcement_from_bytes_kind :
      (bytes : List ℕ) (a : Announcement PublicKey)
      → announcement_from_bytes secp bytes ≡ ok a
      → (take 5 bytes ≡ announcement_prefix) × (take 2 (drop 5 bytes) ≡ kind a)
  unfolding announcement_from_bytes
  announcement_from_bytes_kind bytes a h =
      let (_, long, h1) =
        >>=-eq-ok (guard (not (ltb (length bytes) 7)) AnnouncementParseError.short_length) _ h in
      let (_, prefixed, parsed) =
        >>=-eq-ok
          (guard (bytes_eq (take 5 bytes) announcement_prefix)
            AnnouncementParseError.invalid_prefix)
          _ h1 in
      (
        bytes_eq→eq (take 5 bytes) announcement_prefix (guard-eq-ok _ _ prefixed),
        sym (parse_kind_kind (take 2 (drop 5 bytes)) (drop 7 bytes) a parsed),
      )

  -- `IssueAnnouncement::from_bytes` skips the kind, so it reads a transfer of ownership to a script
  -- of 16 bytes as an issue of that token, with the script as the amount.
  pub from_bytes_confuses_kinds :
      (a : TransferOwnershipAnnouncement PublicKey)
      → length a.new_owner ≡ 16
      → from_bytes
          (Issue.from_announcement_data_bytes secp)
          (to_bytes secp (Announcement.transfer_ownership a))
        ≡ ok (record { token_pubkey = a.token_pubkey; amount = from_le_bytes a.new_owner })
  unfolding from_bytes to_bytes kind bytes_eq to_announcement_data_bytes
      Ownership.to_announcement_data_bytes Issue.from_announcement_data_bytes
      Issue.parse_token_pubkey
  from_bytes_confuses_kinds a h = rw (
    length-append (token_pubkey_to_bytes secp a.token_pubkey) a.new_owner,
    length-token_pubkey_to_bytes secp a.token_pubkey,
    h,
    take-append 33 (token_pubkey_to_bytes secp a.token_pubkey) a.new_owner
        (length-token_pubkey_to_bytes secp a.token_pubkey),
    drop-append 33 (token_pubkey_to_bytes secp a.token_pubkey) a.new_owner
        (length-token_pubkey_to_bytes secp a.token_pubkey),
    token_pubkey_from_bytes-token_pubkey_to_bytes secp a.token_pubkey,
  )
