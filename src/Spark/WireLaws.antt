-- ===== src/Spark/WireLaws.antt =====
-- The data of Spark is read back from its wire form, owner signatures aside.
use lrc.Common.{
  ℕ, ◌++◌, ◌<◌, ◌^◌, ◌≡◌, List, Option, none, some, length, append_assoc, arith, true, Bool, String,
}
use lrc.Codec.{RoundTrips}
use lrc.Codec.Bitcoin.{BitcoinCodecs}
use lrc.Codec.Bytes.{is_utf8}
use lrc.Keys.{Secp256k1}
use lrc.Receipt.Laws.{IsAmount}
use lrc.Proof.WireLaws.{decode_receipt_lem}
use lrc.Consensus.WrapperLaws.{OptionAll, option_wrapper_lem}
use lrc.Outcome.{ok}
use lrc.Spark.{Signatures, SparkSignature, TokenLeafToSpend, TokenLeafOutput, ecdsa, schnorr}
use lrc.Spark.Wire.{
  encode_signature, decode_signature, decode_ecdsa, decode_schnorr, key_codec, encode_leaf_to_spend,
  decode_leaf_to_spend, encode_leaf_output, decode_leaf_output,
}

module _ (btc : BitcoinCodecs) (sigs : Signatures) where
  open btc use {u8, bytes, u8_lem, bytes_lem}
  open sigs use {Ecdsa, Schnorr}

  -- Every signature is read back from its wire form, and what follows is left.
  pub signature_codec_lem :
      (s : SparkSignature Ecdsa Schnorr) (rest : List ℕ)
      → decode_signature btc sigs (encode_signature btc sigs s ++ rest) ≡ ok (s, rest)
  unfolding encode_signature decode_signature decode_ecdsa decode_schnorr
  signature_codec_lem (ecdsa s) rest =
      let size = sigs.length-serialize_compact s in
      simp (
        append_assoc,
        u8_lem 0 (omega arith),
        bytes_lem (sigs.serialize_compact s) (omega (arith, size)),
        sigs.from_compact-serialize_compact s,
      )
  signature_codec_lem (schnorr s) rest =
      let size = sigs.length-serialize_schnorr s in
      simp (
        append_assoc,
        u8_lem 1 (omega arith),
        bytes_lem (sigs.serialize_schnorr s) (omega (arith, size)),
        sigs.schnorr_from_slice-serialize_schnorr s,
      )

module _ (btc : BitcoinCodecs) (secp : Secp256k1) where
  open btc use {u8, u32, u64, bool, bytes, array, u32_lem, u64_lem, bool_lem, bytes_lem, array_lem}
  open secp use {PublicKey, serialize, from_slice-serialize, length-serialize}

  pub key_codec_lem : (text : String) → RoundTrips (key_codec btc secp text) (λ k. Unit {0})
  key_codec_lem text k v rest =
      simp (array_lem 33 (serialize k) (length-serialize k), from_slice-serialize k)

  abbrev pub IsLeafToSpend : TokenLeafToSpend → Type 0
  IsLeafToSpend l = (length l.parent_output_hash ≡ 32) × (l.parent_output_vout < 2 ^ 32)

  pub leaf_to_spend_lem :
      RoundTrips
        (record { encode = encode_leaf_to_spend btc secp; decode = decode_leaf_to_spend btc secp })
        IsLeafToSpend
  unfolding encode_leaf_to_spend decode_leaf_to_spend
  leaf_to_spend_lem l v rest =
      simp (append_assoc, array_lem 32 l.parent_output_hash v.0, u32_lem l.parent_output_vout v.1)

  -- The ranges of the field types, with an id that is UTF-8 and shorter than 2^16 bytes, which is less
  -- than the codec of strings reads.
  pub record IsLeafOutput (l : TokenLeafOutput PublicKey) : Type 0 where
    pub id : is_utf8 l.id ≡ true
    pub id_size : length l.id < 2 ^ 16
    pub receipt : IsAmount l.receipt.token_amount
    pub bond : l.withdrawal_bond_sats < 2 ^ 64
    pub locktime : l.withdrawal_locktime < 2 ^ 32
    pub txid : OptionAll (λ h. length h ≡ 32) l.withdraw_txid
    pub vout : OptionAll (λ n. n < 2 ^ 32) l.withdraw_tx_vout
    pub height : OptionAll (λ n. n < 2 ^ 32) l.withdraw_height
    pub block_hash : OptionAll (λ h. length h ≡ 32) l.withdraw_block_hash

  any_bool : (b : Option Bool) → OptionAll (λ c. Unit {0}) b
  any_bool none = tt
  any_bool (some b) = tt

  pub leaf_output_lem :
      RoundTrips
        (record { encode = encode_leaf_output btc secp; decode = decode_leaf_output btc secp })
        IsLeafOutput
  unfolding encode_leaf_output decode_leaf_output
  leaf_output_lem l v rest = simp (
    append_assoc,
    bytes_lem l.id v.id_size,
    v.id,
    array_lem 33 (serialize l.owner_public_key) (length-serialize l.owner_public_key),
    array_lem 33 (serialize l.revocation_public_key) (length-serialize l.revocation_public_key),
    from_slice-serialize,
    decode_receipt_lem secp l.receipt v.receipt,
    u64_lem l.withdrawal_bond_sats v.bond,
    u32_lem l.withdrawal_locktime v.locktime,
    option_wrapper_lem btc bool (λ c. Unit {0}) bool_lem l.is_frozen (any_bool l.is_frozen),
    option_wrapper_lem btc (array 32) _ (array_lem 32) l.withdraw_txid v.txid,
    option_wrapper_lem btc u32 _ u32_lem l.withdraw_tx_vout v.vout,
    option_wrapper_lem btc u32 _ u32_lem l.withdraw_height v.height,
    option_wrapper_lem btc (array 32) _ (array_lem 32) l.withdraw_block_hash v.block_hash,
  )
