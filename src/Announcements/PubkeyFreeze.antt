-- ===== src/Announcements/PubkeyFreeze.antt =====
-- crates/types/src/announcements/freeze/pubkey.rs: an issuer freezes a public key.
use lrc.Common.{
  ℕ, ◌+◌, ◌≡◌, List, ◌++◌, length, ◌==◌, take, drop, length-append, take-append, drop-append,
}
use lrc.Outcome.{Result, ok, ◌>>=◌, ◌>>◌, guard, map_err, ok_or}
use lrc.Keys.{Secp256k1}
use lrc.Receipt.{token_pubkey_size, token_pubkey_to_bytes, token_pubkey_from_bytes}
use lrc.Receipt.Laws.{length-token_pubkey_to_bytes, token_pubkey_from_bytes-token_pubkey_to_bytes}
use lrc.Announcements.Errors.{PubkeyFreezeAnnouncementParseError, AnnouncementParseError, DataError}

abbrev pub pubkey_size : ℕ
pubkey_size = 33

abbrev pub pubkey_freeze_entry_size : ℕ
pubkey_freeze_entry_size = pubkey_size + token_pubkey_size

pub record PubkeyFreezeAnnouncement (K : Type 0) : Type 0 where
  pub token_pubkey : K
  pub pubkey : K

module _ (secp : Secp256k1) where
  open secp use {PublicKey, serialize, from_slice, from_slice-serialize, length-serialize}

  unfoldable pub parse :
      List ℕ → Result PubkeyFreezeAnnouncementParseError (PubkeyFreezeAnnouncement PublicKey)
  parse bytes = do
    guard (length bytes == pubkey_freeze_entry_size)
        (PubkeyFreezeAnnouncementParseError.invalid_size (length bytes))
    pubkey ←
        ok_or (from_slice (take pubkey_size bytes))
          PubkeyFreezeAnnouncementParseError.invalid_public_key
    token_pubkey ←
        map_err PubkeyFreezeAnnouncementParseError.invalid_token_pubkey
          (token_pubkey_from_bytes secp (drop pubkey_size bytes))
    ok (record { token_pubkey = token_pubkey; pubkey = pubkey })

  unfoldable pub from_announcement_data_bytes :
      List ℕ → Result AnnouncementParseError (PubkeyFreezeAnnouncement PublicKey)
  unfolding parse
  from_announcement_data_bytes bytes =
      map_err (λ e. AnnouncementParseError.invalid_announcement_data (DataError.pubkey_freeze e))
        (parse bytes)

  unfoldable pub to_announcement_data_bytes : PubkeyFreezeAnnouncement PublicKey → List ℕ
  to_announcement_data_bytes a = serialize a.pubkey ++ token_pubkey_to_bytes secp a.token_pubkey

  -- The data bytes of a freeze of a public key are read back as the announcement.
  pub from-to_announcement_data_bytes :
      (a : PubkeyFreezeAnnouncement PublicKey)
      → from_announcement_data_bytes (to_announcement_data_bytes a) ≡ ok a
  unfolding from_announcement_data_bytes to_announcement_data_bytes
  from-to_announcement_data_bytes a = rw (
    length-append (serialize a.pubkey) (token_pubkey_to_bytes secp a.token_pubkey),
    length-serialize a.pubkey,
    length-token_pubkey_to_bytes secp a.token_pubkey,
    take-append 33 (serialize a.pubkey) (token_pubkey_to_bytes secp a.token_pubkey)
        (length-serialize a.pubkey),
    drop-append 33 (serialize a.pubkey) (token_pubkey_to_bytes secp a.token_pubkey)
        (length-serialize a.pubkey),
    from_slice-serialize a.pubkey,
    token_pubkey_from_bytes-token_pubkey_to_bytes secp a.token_pubkey,
  )
