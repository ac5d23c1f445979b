-- ===== src/Announcements/Ownership.antt =====
-- crates/types/src/announcements/transfer_ownership.rs: the owner of a token names a new owner.
use lrc.Common.{
  Bool-cases, ap, ◌∙◌, ◌≢◌, ℕ, ◌+◌, ◌≡◌, List, ◌++◌, ◌||◌, length, ltb, if◌then◌else◌, drop, arith,
  drop-append, inl, inr, length-drop, false, ◌≤◌,
}
use lrc.Outcome.{◌>>=◌, map_err-eq-ok, Result, ok, err, map_err, Result-cases}
use lrc.Keys.{Secp256k1}
use lrc.Receipt.{
  token_pubkey_size, token_pubkey_to_bytes, token_pubkey_from_bytes, TokenPubkeyParseError,
}
use lrc.Receipt.Laws.{token_pubkey_from_bytes_size, length-token_pubkey_to_bytes}
use lrc.Announcements.Errors.{
  TransferOwnershipAnnouncementParseError, AnnouncementParseError, DataError,
}

-- crates/types/src/network.rs
pub data Network : Type 0 where
  bitcoin testnet signet regtest mutiny : Network

abbrev pub max_script_size : ℕ
max_script_size = 48

abbrev pub min_script_size : ℕ
min_script_size = 16

abbrev pub transfer_ownership_announcement_max_size : ℕ
transfer_ownership_announcement_max_size = token_pubkey_size + max_script_size

abbrev pub transfer_ownership_announcement_min_size : ℕ
transfer_ownership_announcement_min_size = 32 + min_script_size

-- `new_owner` is the bytes of the script.
pub record TransferOwnershipAnnouncement (K : Type 0) : Type 0 where
  pub token_pubkey : K
  pub new_owner : List ℕ

unfoldable pub minimal_block_height : Network → ℕ
minimal_block_height bitcoin = 855_000
minimal_block_height testnet = 2_830_000
minimal_block_height mutiny = 1_200_000
minimal_block_height _ = 0

module _ (secp : Secp256k1) where
  open secp use {PublicKey}

  -- Both fields are read behind the first 33 bytes, as in the source.
  unfoldable pub parse :
      List ℕ
      → Result TransferOwnershipAnnouncementParseError (TransferOwnershipAnnouncement PublicKey)
  parse bytes =
      if ltb (length bytes) transfer_ownership_announcement_min_size
        || ltb transfer_ownership_announcement_max_size (length bytes)
      then err (TransferOwnershipAnnouncementParseError.invalid_size (length bytes))
      else do
        token_pubkey ←
            map_err TransferOwnershipAnnouncementParseError.invalid_token_pubkey
              (token_pubkey_from_bytes secp (drop token_pubkey_size bytes))
        let index = token_pubkey_size
        let new_owner = drop index bytes
        ok (record { token_pubkey = token_pubkey; new_owner = new_owner })

  unfoldable pub from_announcement_data_bytes :
      List ℕ → Result AnnouncementParseError (TransferOwnershipAnnouncement PublicKey)
  unfolding parse
  from_announcement_data_bytes bytes =
      map_err
        (λ e. AnnouncementParseError.invalid_announcement_data (DataError.transfer_ownership e))
        (parse bytes)

  unfoldable pub to_announcement_data_bytes : TransferOwnershipAnnouncement PublicKey → List ℕ
  to_announcement_data_bytes a = token_pubkey_to_bytes secp a.token_pubkey ++ a.new_owner

  out_of_range :
      {e : TransferOwnershipAnnouncementParseError} (a : TransferOwnershipAnnouncement PublicKey)
      → ◌≡◌
          {A = Result TransferOwnershipAnnouncementParseError
            (TransferOwnershipAnnouncement PublicKey)}
          (err e)
          (ok a)
      → ⊥
  out_of_range a h = cc

  owner_built :
      (rest : List ℕ) (r : Result TokenPubkeyParseError PublicKey)
      (a : TransferOwnershipAnnouncement PublicKey)
      → (map_err TransferOwnershipAnnouncementParseError.invalid_token_pubkey r >>= λ k.
          ok (record { token_pubkey = k; new_owner = rest }))
        ≡ ok a
      → (r ≡ ok a.token_pubkey) × (a.new_owner ≡ rest)
  owner_built rest (ok k) a h = ground arith
  owner_built rest (err e) a h = cc

  short :
      (bytes : List ℕ)
      → (ltb (length bytes) 48 || ltb 81 (length bytes)) ≡ false
      → length bytes ≤ 81
  short bytes h = ground arith

  parse_key :
      (bytes : List ℕ) (a : TransferOwnershipAnnouncement PublicKey)
      → parse bytes ≡ ok a
      → (token_pubkey_from_bytes secp a.new_owner ≡ ok a.token_pubkey)
        × (a.new_owner ≡ drop 33 bytes)
        × (length a.new_owner ≤ 48)
  unfolding parse
  parse_key bytes a h = elim (Bool-cases (ltb (length bytes) 48 || ltb 81 (length bytes))) [
    | inl wide ↦ absurd (out_of_range a (rw wide at h))
    | inr fits ↦
        let (key, owner) =
          owner_built (drop 33 bytes) (token_pubkey_from_bytes secp (drop 33 bytes)) a
            (rw fits at h) in
        (rw owner key, owner, rw owner (omega (arith, short bytes fits, length-drop 33 bytes)))
  ]

  -- What the parser accepts is at most 48 bytes of script that are also the token's public key.
  from_announcement_data_bytes_key :
      (bytes : List ℕ) (a : TransferOwnershipAnnouncement PublicKey)
      → from_announcement_data_bytes bytes ≡ ok a
      → (token_pubkey_from_bytes secp a.new_owner ≡ ok a.token_pubkey)
        × (a.new_owner ≡ drop 33 bytes)
        × (length a.new_owner ≤ 48)
  unfolding from_announcement_data_bytes
  from_announcement_data_bytes_key bytes a h = parse_key bytes a (map_err-eq-ok _ (parse bytes) h)

  drop_key :
      (a : TransferOwnershipAnnouncement PublicKey)
      → drop 33 (to_announcement_data_bytes a) ≡ a.new_owner
  unfolding to_announcement_data_bytes
  drop_key a =
      drop-append 33 (token_pubkey_to_bytes secp a.token_pubkey) a.new_owner
        (length-token_pubkey_to_bytes secp a.token_pubkey)

  accepted_size :
      (a b : TransferOwnershipAnnouncement PublicKey)
      → from_announcement_data_bytes (to_announcement_data_bytes a) ≡ ok b
      → length a.new_owner ≡ 33
  accepted_size a b e =
      let (key, new_owner, small) =
        from_announcement_data_bytes_key (to_announcement_data_bytes a) b e in
      let size = token_pubkey_from_bytes_size secp b.new_owner b.token_pubkey key in
      let same : length b.new_owner ≡ length a.new_owner = ap length (new_owner ∙ drop_key a) in
      omega arith

  -- No announcement of a transfer of ownership whose script is not 33 bytes long is read back: the
  -- parser refuses what the printer wrote.
  pub from-to_announcement_data_bytes_refused :
      (a : TransferOwnershipAnnouncement PublicKey)
      → length a.new_owner ≢ 33
      → (e : AnnouncementParseError) × (from_announcement_data_bytes (to_announcement_data_bytes a)
          ≡ err e)
  from-to_announcement_data_bytes_refused a h =
      elim (Result-cases (from_announcement_data_bytes (to_announcement_data_bytes a))) [
        | inl (b, e) ↦ absurd (h (accepted_size a b e))
        | inr (x, e) ↦ (x, e)
      ]
