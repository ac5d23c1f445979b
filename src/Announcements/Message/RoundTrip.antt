-- ===== src/Announcements/Message/RoundTrip.antt =====
-- Announcements through their bytes and through their scripts.
use lrc.Common.{
  ℕ, [], bytes_eq, refl, true, ◌<◌, ◌^◌, ◌∷◌, ◌≡◌, List, ap, arith, length, le→leb, le→ltb, sym,
  ◌++◌, ◌∙◌,
}
use lrc.Keys.{Secp256k1}
use lrc.Announcements.Script.{
  Scripts, is_announcement, parse_op_return_script-op_return_push, announcement_prefix,
}
use lrc.Announcements.Message.{
  Announcement, token_logo, token_pubkey, tx_freeze, pubkey_freeze, issue, transfer_ownership, kind,
  to_announcement_data_bytes, to_bytes, parse_kind, announcement_from_bytes, to_script,
  announcement_from_script,
}
use lrc.Outcome.{ok}
use lrc.Announcements.TokenPubkey.RoundTrip as TokenPubkeyLaws
use lrc.Announcements.TokenLogo.RoundTrip as TokenLogoLaws
use lrc.Announcements.TxFreeze
use lrc.Announcements.PubkeyFreeze
use lrc.Announcements.Issue

module _ (secp : Secp256k1) where
  open secp use {PublicKey}

  -- The limits of each kind of message. None is given for a transfer of ownership, whose parser
  -- does not read what its printer writes.
  abbrev pub IsReadable : Announcement PublicKey → Type 0
  IsReadable (token_logo a) = TokenLogoLaws.IsValid a
  IsReadable (token_pubkey a) = TokenPubkeyLaws.IsValid a
  IsReadable (tx_freeze a) = TxFreeze.IsValid secp a
  IsReadable (pubkey_freeze a) = Unit {0}
  IsReadable (issue a) = a.amount < 2 ^ 128
  IsReadable (transfer_ownership a) = ⊥

  parse_kind_lem :
      (a : Announcement PublicKey)
      → IsReadable a
      → parse_kind secp (kind a) (to_announcement_data_bytes secp a) ≡ ok a
  unfolding parse_kind kind to_announcement_data_bytes bytes_eq
  parse_kind_lem (token_logo a) v = rw (TokenLogoLaws.from-to_announcement_data_bytes secp a v)
  parse_kind_lem (token_pubkey a) v = rw (TokenPubkeyLaws.from-to_announcement_data_bytes secp a v)
  parse_kind_lem (tx_freeze a) v = rw (TxFreeze.from-to_announcement_data_bytes secp a v)
  parse_kind_lem (pubkey_freeze a) v = rw (PubkeyFreeze.from-to_announcement_data_bytes secp a)
  parse_kind_lem (issue a) v = rw (Issue.from-to_announcement_data_bytes secp a v)
  parse_kind_lem (transfer_ownership a) v = absurd v

  pub kind_bytes : (a : Announcement PublicKey) → (x : ℕ) × (y : ℕ) × (kind a ≡ x ∷ y ∷ [])
  unfolding kind
  kind_bytes (token_logo a) = (0, 6, refl)
  kind_bytes (token_pubkey a) = (0, 0, refl)
  kind_bytes (tx_freeze a) = (0, 1, refl)
  kind_bytes (pubkey_freeze a) = (0, 5, refl)
  kind_bytes (issue a) = (0, 2, refl)
  kind_bytes (transfer_ownership a) = (0, 3, refl)

  from_pieces :
      (x y : ℕ) (bytes : List ℕ)
      → announcement_from_bytes secp (announcement_prefix ++ ((x ∷ y ∷ []) ++ bytes))
        ≡ parse_kind secp (x ∷ y ∷ []) bytes
  unfolding announcement_from_bytes bytes_eq
  from_pieces x y bytes =
      rw (le→ltb (length (announcement_prefix ++ ((x ∷ y ∷ []) ++ bytes))) 7 (omega arith))

  -- Every announcement within its limits, other than a transfer of ownership, is read back from its
  -- bytes.
  pub announcement_from_bytes-to_bytes :
      (a : Announcement PublicKey)
      → IsReadable a
      → announcement_from_bytes secp (to_bytes secp a) ≡ ok a
  unfolding to_bytes
  announcement_from_bytes-to_bytes a v =
      let (x, y, e) = kind_bytes a in
      let bytes = to_announcement_data_bytes secp a in
      ap (λ k. announcement_from_bytes secp (announcement_prefix ++ (k ++ bytes))) e
      ∙ from_pieces x y bytes
      ∙ ap (λ k. parse_kind secp k bytes) (sym e)
      ∙ parse_kind_lem a v

  prefixed :
      (x y : ℕ) (bytes : List ℕ)
      → is_announcement (announcement_prefix ++ ((x ∷ y ∷ []) ++ bytes)) ≡ true
  unfolding is_announcement bytes_eq
  prefixed x y bytes =
      rw (le→leb 7 (length (announcement_prefix ++ ((x ∷ y ∷ []) ++ bytes))) (omega arith))

  pub to_bytes-is_announcement :
      (a : Announcement PublicKey) → is_announcement (to_bytes secp a) ≡ true
  unfolding to_bytes
  to_bytes-is_announcement a =
      let (x, y, e) = kind_bytes a in
      let bytes = to_announcement_data_bytes secp a in
      ap (λ k. is_announcement (announcement_prefix ++ (k ++ bytes))) e ∙ prefixed x y bytes

  -- Every announcement within its limits, other than a transfer of ownership, is read back from its
  -- `OP_RETURN` script.
  pub announcement_from_script-to_script :
      (scripts : Scripts) (a : Announcement PublicKey)
      → IsReadable a
      → announcement_from_script secp scripts (to_script secp scripts a) ≡ ok a
  unfolding announcement_from_script to_script
  announcement_from_script-to_script scripts a v =
      parse_op_return_script-op_return_push scripts (announcement_from_bytes secp) (to_bytes secp a)
        a (to_bytes-is_announcement a) (announcement_from_bytes-to_bytes a v)
