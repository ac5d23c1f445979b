-- ===== src/Spark/Wire.antt =====
-- crates/types/src/spark/consensus.rs: the wire forms of the data of Spark.
use lrc.Common.{ℕ, ◌++◌, ◌==◌, if◌then◌else◌, List, String}
use lrc.Codec.{Codec, Reader, EncodeError, ◌>>=◌, pure, lift, fail, parse_failed}
use lrc.Codec.Bitcoin.{BitcoinCodecs}
use lrc.Codec.Bytes.{is_utf8}
use lrc.Keys.{Secp256k1}
use lrc.Proof.Wire.{encode_receipt, decode_receipt}
use lrc.Consensus.Wrappers.{option_wrapper}
use lrc.Outcome.{ok, err, ok_or}
use lrc.Spark.{Signatures, SparkSignature, TokenLeafToSpend, TokenLeafOutput, ecdsa, schnorr}

module _ (btc : BitcoinCodecs) (sigs : Signatures) where
  open btc use {u8, bytes}
  open sigs use {Ecdsa, Schnorr}

  unfoldable pub encode_signature : SparkSignature Ecdsa Schnorr → List ℕ
  encode_signature (ecdsa s) = u8.encode 0 ++ bytes.encode (sigs.serialize_compact s)
  encode_signature (schnorr s) = u8.encode 1 ++ bytes.encode (sigs.serialize_schnorr s)

  unfoldable pub decode_ecdsa : Reader EncodeError (SparkSignature Ecdsa Schnorr)
  decode_ecdsa = do
    ecdsa_bytes ← bytes.decode
    s ← lift (
        ok_or (sigs.from_compact ecdsa_bytes)
          (parse_failed "Failed to parse ECDSA signature bytes"))
    pure (ecdsa s)

  unfoldable pub decode_schnorr : Reader EncodeError (SparkSignature Ecdsa Schnorr)
  decode_schnorr = do
    schnorr_bytes ← bytes.decode
    s ← lift (
        ok_or (sigs.schnorr_from_slice schnorr_bytes)
          (parse_failed "Failed to parse Schnorr signature bytes"))
    pure (schnorr s)

  unfoldable pub decode_signature : Reader EncodeError (SparkSignature Ecdsa Schnorr)
  decode_signature = do
    sig_flag ← u8.decode
    if sig_flag == 0
        then decode_ecdsa
        else if sig_flag == 1
        then decode_schnorr
        else fail (parse_failed "Unsupported token transaction input")

abbrev pub signature_codec :
    BitcoinCodecs → (sigs : Signatures) → Codec (SparkSignature (sigs.Ecdsa) (sigs.Schnorr))
signature_codec btc sigs = record {
  encode = encode_signature btc sigs;
  decode = decode_signature btc sigs;
}

module _ (btc : BitcoinCodecs) (secp : Secp256k1) where
  open btc use {u8, u32, u64, bool, bytes, array}
  open secp use {PublicKey, serialize, from_slice}

  -- A key that is read as `[u8; 33]` and parsed, with the text of the parse error.
  abbrev pub key_codec : String → Codec PublicKey
  key_codec text = record {
    encode = λ k. (array 33).encode (serialize k);
    decode = (array 33).decode >>= λ bs. lift (ok_or (from_slice bs) (parse_failed text));
  }

  unfoldable pub encode_leaf_to_spend : TokenLeafToSpend → List ℕ
  encode_leaf_to_spend l = (array 32).encode l.parent_output_hash ++ u32.encode l.parent_output_vout

  unfoldable pub decode_leaf_to_spend : Reader EncodeError TokenLeafToSpend
  decode_leaf_to_spend = do
    parent_leaf_hash ← (array 32).decode
    parent_leaf_index ← u32.decode
    pure (record { parent_output_hash = parent_leaf_hash; parent_output_vout = parent_leaf_index })

  unfoldable pub encode_leaf_output : TokenLeafOutput PublicKey → List ℕ
  encode_leaf_output l =
      bytes.encode l.id
      ++ ((array 33).encode (serialize l.owner_public_key)
          ++ (encode_receipt secp l.receipt
              ++ ((array 33).encode (serialize l.revocation_public_key)
                  ++ (u64.encode l.withdrawal_bond_sats
                      ++ (u32.encode l.withdrawal_locktime
                          ++ ((option_wrapper btc bool).encode l.is_frozen
                              ++ ((option_wrapper btc (array 32)).encode l.withdraw_txid
                                  ++ ((option_wrapper btc u32).encode l.withdraw_tx_vout
                                      ++ ((option_wrapper btc u32).encode l.withdraw_height
                                          ++ (option_wrapper btc (array 32)).encode
                                              l.withdraw_block_hash)))))))))

  unfoldable pub decode_leaf_output : Reader EncodeError (TokenLeafOutput PublicKey)
  decode_leaf_output = do
    id ← bytes.decode
    id ← lift (if is_utf8 id then ok id else err (parse_failed "Failed to parse id bytes"))
    owner_public_key ← (key_codec "Failed to parse owner signing public key bytes").decode
    receipt ← decode_receipt secp
    revocation_public_key ← (key_codec "Failed to parse revocation public key bytes").decode
    withdrawal_bond_sats ← u64.decode
    withdrawal_locktime ← u32.decode
    is_frozen ← (option_wrapper btc bool).decode
    withdraw_txid ← (option_wrapper btc (array 32)).decode
    withdraw_tx_vout ← (option_wrapper btc u32).decode
    withdraw_height ← (option_wrapper btc u32).decode
    withdraw_block_hash ← (option_wrapper btc (array 32)).decode
    pure (record {
      id = id;
      owner_public_key = owner_public_key;
      revocation_public_key = revocation_public_key;
      withdrawal_bond_sats = withdrawal_bond_sats;
      withdrawal_locktime = withdrawal_locktime;
      receipt = receipt;
      is_frozen = is_frozen;
      withdraw_txid = withdraw_txid;
      withdraw_tx_vout = withdraw_tx_vout;
      withdraw_height = withdraw_height;
      withdraw_block_hash = withdraw_block_hash;
    })
