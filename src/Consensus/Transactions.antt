-- ===== src/Consensus/Transactions.antt =====
-- The wire forms of announcements, of `Lrc20TxType` and of `Lrc20Transaction`.
use lrc.Common.{ℕ, List, [], if◌then◌else◌, ◌++◌, ◌==◌}
use lrc.Codec.{Codec, Reader, EncodeError, ◌>>=◌, pure, lift, fail, io, parse_failed}
use lrc.Codec.Bitcoin.{BitcoinCodecs}
use lrc.Codec.Bytes.{read_exact}
use lrc.Keys.{Secp256k1}
use lrc.Announcements.Issue.{IssueAnnouncement}
use lrc.Announcements.Message.{Announcement, announcement_from_bytes, to_bytes, from_bytes}
use lrc.Consensus.Wrappers.{option_wrapper, btree_map_wrapper}
use lrc.Transaction.{
  Lrc20TxType, Lrc20Transaction, transfer, announcement, spark_exit, input_proofs, output_proofs,
}
use lrc.Outcome.{map_err, ok}
use lrc.Outcome
use lrc.Announcements.Issue

module _ (secp : Secp256k1) where
  open secp use {PublicKey}

  unfoldable pub encode_announcement : Announcement PublicKey → List ℕ
  encode_announcement a = to_bytes secp a

  -- `read_to_end`: nothing is left for who reads next.
  unfoldable pub decode_announcement : Reader EncodeError (Announcement PublicKey)
  decode_announcement bs =
      Outcome.◌>>=◌ (map_err (λ e. io) (announcement_from_bytes secp bs)) (λ a. ok (a, []))

  unfoldable pub encode_issue : IssueAnnouncement PublicKey → List ℕ
  encode_issue a = to_bytes secp (Announcement.issue a)

  -- ISSUE_ANNOUNCEMENT_MAX_SIZE + ANNOUNCEMENT_MINIMAL_LENGTH bytes.
  unfoldable pub decode_issue : Reader EncodeError (IssueAnnouncement PublicKey)
  decode_issue = do
    buf ← read_exact io 56
    lift (map_err (λ e. io) (from_bytes (Issue.from_announcement_data_bytes secp) buf))

abbrev pub announcement_codec : (secp : Secp256k1) → Codec (Announcement (secp.PublicKey))
announcement_codec secp = record {
  encode = encode_announcement secp;
  decode = decode_announcement secp;
}

abbrev pub issue_codec : (secp : Secp256k1) → Codec (IssueAnnouncement (secp.PublicKey))
issue_codec secp = record { encode = encode_issue secp; decode = decode_issue secp }

module _ (btc : BitcoinCodecs) (secp : Secp256k1) {P : Type 0} (proof : Codec P) where
  open btc use {u8}
  open secp use {PublicKey}

  unfoldable pub encode_tx_type : Lrc20TxType PublicKey P → List ℕ
  encode_tx_type (Lrc20TxType.issue output_proofs a) =
      u8.encode 0
      ++ ((issue_codec secp).encode a
          ++ (option_wrapper btc (btree_map_wrapper btc proof)).encode output_proofs)
  encode_tx_type (transfer input_proofs output_proofs) =
      u8.encode 1
      ++ ((btree_map_wrapper btc proof).encode input_proofs
          ++ (btree_map_wrapper btc proof).encode output_proofs)
  encode_tx_type (announcement a) = u8.encode 2 ++ (announcement_codec secp).encode a
  encode_tx_type (spark_exit output_proofs) =
      u8.encode 4 ++ (btree_map_wrapper btc proof).encode output_proofs

  unfoldable pub decode_issue_type : Reader EncodeError (Lrc20TxType PublicKey P)
  decode_issue_type = do
    issue_announcement ← (issue_codec secp).decode
    output_proofs ← (option_wrapper btc (btree_map_wrapper btc proof)).decode
    pure (Lrc20TxType.issue output_proofs issue_announcement)

  unfoldable pub decode_transfer_type : Reader EncodeError (Lrc20TxType PublicKey P)
  decode_transfer_type = do
    input_proofs ← (btree_map_wrapper btc proof).decode
    output_proofs ← (btree_map_wrapper btc proof).decode
    pure (transfer input_proofs output_proofs)

  unfoldable pub decode_tx_type : Reader EncodeError (Lrc20TxType PublicKey P)
  decode_tx_type = u8.decode >>= λ kind.
      if kind == 0
      then decode_issue_type
      else if kind == 1
      then decode_transfer_type
      else if kind == 2
      then ((announcement_codec secp).decode >>= λ a. pure (announcement a))
      else if kind == 4
      then ((btree_map_wrapper btc proof).decode >>= λ output_proofs.
          pure (spark_exit output_proofs))
      else fail (parse_failed "Unknown LRC20 tx type")

abbrev pub tx_type_codec :
    BitcoinCodecs
    → (secp : Secp256k1) {P : Type 0} → Codec P
    → Codec (Lrc20TxType (secp.PublicKey) P)
tx_type_codec btc secp proof = record {
  encode = encode_tx_type btc secp proof;
  decode = decode_tx_type btc secp proof;
}

module _ (btc : BitcoinCodecs) (secp : Secp256k1) {Tx P : Type 0} (tx : Codec Tx)
    (proof : Codec P) where
  open secp use {PublicKey}

  unfoldable pub encode_transaction : Lrc20Transaction Tx PublicKey P → List ℕ
  encode_transaction t = tx.encode t.bitcoin_tx ++ (tx_type_codec btc secp proof).encode t.tx_type

  unfoldable pub decode_transaction : Reader EncodeError (Lrc20Transaction Tx PublicKey P)
  decode_transaction = do
    bitcoin_tx ← tx.decode
    tx_type ← (tx_type_codec btc secp proof).decode
    pure (record { bitcoin_tx = bitcoin_tx; tx_type = tx_type })

abbrev pub transaction_codec :
    BitcoinCodecs
    → (secp : Secp256k1) {Tx P : Type 0} → Codec Tx
    → Codec P
    → Codec (Lrc20Transaction Tx (secp.PublicKey) P)
transaction_codec btc secp tx proof = record {
  encode = encode_transaction btc secp tx proof;
  decode = decode_transaction btc secp tx proof;
}
