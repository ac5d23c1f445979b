-- ===== src/Consensus/RoundTrips.antt =====
-- The wire form of an `Lrc20Transaction` and of a batch of them (`Lrc20TxsWrapper`), with the wire
-- form of receipt proofs in its place.
use lrc.Common.{ℕ, List, ◌++◌, ◌≡◌, ◌<◌, ◌^◌, length, All}
use lrc.Codec.{Codec, RoundTrips}
use lrc.Codec.Bitcoin.{BitcoinCodecs}
use lrc.Keys.{Secp256k1}
use lrc.Outcome.{ok}
use lrc.Proof.{ReceiptProof}
use lrc.Proof.Metadata.{Json}
use lrc.Proof.Wire.{receipt_proof_codec}
use lrc.Proof.WireLaws.{IsProof, receipt_proof_codec_lem}
use lrc.Transaction.{Lrc20Transaction}
use lrc.Consensus.Wrappers.{encode_vec, decode_vec}
use lrc.Consensus.Transactions.{transaction_codec, encode_transaction, decode_transaction}
use lrc.Consensus.TransactionLaws.{IsTransaction, transaction_codec_lem, transactions_codec_lem}

module _ (btc : BitcoinCodecs) (secp : Secp256k1) (json : Json) {Tx : Type 0} (tx : Codec Tx)
    (GoodTx : Tx → Type 0) (tx_law : RoundTrips tx GoodTx) where
  open secp use {PublicKey}
  open json use {Value}

  abbrev pub IsLrc20Transaction :
      Lrc20Transaction Tx PublicKey (ReceiptProof PublicKey Value) → Type 0
  IsLrc20Transaction t =
      IsTransaction btc secp tx (receipt_proof_codec btc secp json) GoodTx tx_law
        (IsProof btc secp json) (receipt_proof_codec_lem btc secp json) t

  -- A transaction that is no announcement is read back from its wire form, and what follows is left,
  -- where its Bitcoin transaction is one that its codec reads back, its maps are in order with fewer
  -- than 2^32 entries, and its fields are in the ranges of their types; metadata is none or what
  -- serde_json reads back from fewer than 2^32 bytes, and P2WSH scripts are shorter than 2^16 bytes.
  pub lrc20_transaction_lem :
      (t : Lrc20Transaction Tx PublicKey (ReceiptProof PublicKey Value))
      → IsLrc20Transaction t
      → (rest : List ℕ)
      → decode_transaction btc secp tx
          (receipt_proof_codec btc secp json)
          (encode_transaction btc secp tx (receipt_proof_codec btc secp json) t ++ rest)
        ≡ ok (t, rest)
  lrc20_transaction_lem t v rest =
      transaction_codec_lem btc secp tx (receipt_proof_codec btc secp json) GoodTx tx_law
        (IsProof btc secp json) (receipt_proof_codec_lem btc secp json) t v rest

  -- A batch of fewer than 2^32 such transactions is read back from its wire form, and what follows is
  -- left.
  pub lrc20_txs_lem :
      (ts : List (Lrc20Transaction Tx PublicKey (ReceiptProof PublicKey Value)))
      → All IsLrc20Transaction ts
      → length ts < 2 ^ 32
      → (rest : List ℕ)
      → decode_vec btc (transaction_codec btc secp tx (receipt_proof_codec btc secp json)) (
          encode_vec btc (transaction_codec btc secp tx (receipt_proof_codec btc secp json)) ts
          ++ rest)
        ≡ ok (ts, rest)
  lrc20_txs_lem ts v small rest =
      transactions_codec_lem btc secp tx (receipt_proof_codec btc secp json) GoodTx tx_law
        (IsProof btc secp json) (receipt_proof_codec_lem btc secp json) ts (v, small) rest
