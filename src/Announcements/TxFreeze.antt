-- ===== src/Announcements/TxFreeze.antt =====
-- crates/types/src/announcements/freeze/outpoint.rs: an issuer freezes an outpoint. A txid is its 32
-- bytes, and `Txid::from_slice` takes exactly so many.
use lrc.Common.{
  ℕ, ◌+◌, ◌≡◌, ◌<◌, ◌^◌, List, ◌++◌, ◌||◌, length, ltb, ◌==◌, if◌then◌else◌, take, drop, arith,
  length-append, take-append, drop-append, append_assoc,
}
use lrc.Common.Words.{to_be_bytes, from_be_bytes, from_be_bytes-to_be_bytes, length-to_be_bytes}
use lrc.Outcome.{Result, ok, err, ◌>>=◌, map_err, ok_or}
use lrc.Keys.{Secp256k1}
use lrc.Receipt.{
  token_pubkey_size, token_pubkey_to_bytes, token_pubkey_from_bytes, TokenPubkeyParseError,
}
use lrc.Receipt.Laws.{length-token_pubkey_to_bytes, token_pubkey_from_bytes-token_pubkey_to_bytes}
use lrc.Announcements.Errors.{FreezeAnnouncementParseError, AnnouncementParseError, DataError}

abbrev pub tx_id_size : ℕ
tx_id_size = 32

abbrev pub vout_size : ℕ
vout_size = 4

abbrev pub freeze_entry_min_size : ℕ
freeze_entry_min_size = tx_id_size + vout_size + 32

abbrev pub freeze_entry_max_size : ℕ
freeze_entry_max_size = tx_id_size + vout_size + token_pubkey_size

pub record OutPoint : Type 0 where
  pub txid : List ℕ
  pub vout : ℕ

pub record TxFreezeAnnouncement (K : Type 0) : Type 0 where
  pub token_pubkey : K
  pub outpoint : OutPoint

txid_from_slice : List ℕ → Result FreezeAnnouncementParseError (List ℕ)
txid_from_slice bytes =
    if length bytes == tx_id_size
    then ok bytes
    else err FreezeAnnouncementParseError.invalid_tx_hash

module _ (secp : Secp256k1) where
  open secp use {PublicKey, from_xonly_slice}

  -- The key in its 33 bytes, or as the x coordinate of an even key.
  unfoldable pub parse_token_pubkey : List ℕ → Result FreezeAnnouncementParseError PublicKey
  parse_token_pubkey bytes =
      if length bytes == token_pubkey_size
      then map_err FreezeAnnouncementParseError.invalid_token_pubkey
          (token_pubkey_from_bytes secp bytes)
      else ok_or (from_xonly_slice bytes) (
          FreezeAnnouncementParseError.invalid_token_pubkey
            TokenPubkeyParseError.invalid_public_key)

  unfoldable pub parse :
      List ℕ → Result FreezeAnnouncementParseError (TxFreezeAnnouncement PublicKey)
  unfolding txid_from_slice
  parse bytes =
      if ltb (length bytes) freeze_entry_min_size || ltb freeze_entry_max_size (length bytes)
      then err (FreezeAnnouncementParseError.invalid_size (length bytes))
      else do
        txid ← txid_from_slice (take tx_id_size bytes)
        let vout = from_be_bytes (take vout_size (drop tx_id_size bytes))
        token_pubkey ← parse_token_pubkey (drop (tx_id_size + vout_size) bytes)
        ok (record { token_pubkey = token_pubkey; outpoint = record { txid = txid; vout = vout } })

  unfoldable pub from_announcement_data_bytes :
      List ℕ → Result AnnouncementParseError (TxFreezeAnnouncement PublicKey)
  unfolding parse
  from_announcement_data_bytes bytes =
      map_err (λ e. AnnouncementParseError.invalid_announcement_data (DataError.tx_freeze e))
        (parse bytes)

  unfoldable pub to_announcement_data_bytes : TxFreezeAnnouncement PublicKey → List ℕ
  to_announcement_data_bytes a =
      a.outpoint.txid
      ++ (to_be_bytes 4 a.outpoint.vout ++ token_pubkey_to_bytes secp a.token_pubkey)

  pub record IsValid (a : TxFreezeAnnouncement PublicKey) : Type 0 where
    pub txid_size : length a.outpoint.txid ≡ 32
    pub vout_u32 : a.outpoint.vout < 2 ^ 32

  -- The data bytes of a freeze of an outpoint are read back as the announcement.
  pub from-to_announcement_data_bytes :
      (a : TxFreezeAnnouncement PublicKey)
      → IsValid a
      → from_announcement_data_bytes (to_announcement_data_bytes a) ≡ ok a
  unfolding from_announcement_data_bytes to_announcement_data_bytes parse_token_pubkey
  from-to_announcement_data_bytes a v = rw (
    length-append a.outpoint.txid (vout ++ key),
    length-append vout key,
    v.txid_size,
    length-to_be_bytes 4 a.outpoint.vout,
    length-token_pubkey_to_bytes secp a.token_pubkey,
    take-append 32 a.outpoint.txid (vout ++ key) v.txid_size,
    drop-append 32 a.outpoint.txid (vout ++ key) v.txid_size,
    v.txid_size,
    take-append 4 vout key (length-to_be_bytes 4 a.outpoint.vout),
    front,
    from_be_bytes-to_be_bytes 4 a.outpoint.vout v.vout_u32,
    length-token_pubkey_to_bytes secp a.token_pubkey,
    token_pubkey_from_bytes-token_pubkey_to_bytes secp a.token_pubkey,
  )
    where
      vout : List ℕ
      vout = to_be_bytes 4 a.outpoint.vout

      key : List ℕ
      key = token_pubkey_to_bytes secp a.token_pubkey

      front : drop 36 (a.outpoint.txid ++ (vout ++ key)) ≡ key
      front = rw (← append_assoc a.outpoint.txid vout key) (
          drop-append 36 (a.outpoint.txid ++ vout) key (
            omega (
              arith,
              length-append a.outpoint.txid vout,
              length-to_be_bytes 4 a.outpoint.vout,
              v.txid_size,
            )))
