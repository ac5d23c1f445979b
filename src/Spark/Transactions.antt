-- ===== src/Spark/Transactions.antt =====
-- crates/types/src/spark/consensus.rs: the wire forms of owner signatures, token transactions,
-- signature data and freezes.
use lrc.Common.{ℕ, ◌++◌, ◌==◌, if◌then◌else◌, List, Option, none, some}
use lrc.Codec.{Codec, Reader, EncodeError, ◌>>=◌, pure, lift, fail, parse_failed}
use lrc.Codec.Bitcoin.{BitcoinCodecs}
use lrc.Keys.{Secp256k1}
use lrc.Receipt.{token_pubkey_to_bytes, token_pubkey_from_bytes}
use lrc.Consensus.Wrappers.{option_wrapper, vec_wrapper}
use lrc.Outcome.{ok_or, map_err}
use lrc.Spark.{
  Signatures, SparkSignature, OperatorSpecificOwnerSignature, TokenLeafToSpend, TokenLeafOutput,
  TokenTransactionInput, TokenTransaction, SparkSignatureLeafData, SparkSignatureData,
  TokensFreezeData, mint, transfer,
}
use lrc.Spark.Wire.{
  signature_codec, key_codec, encode_leaf_to_spend, decode_leaf_to_spend, encode_leaf_output,
  decode_leaf_output,
}

abbrev map_key : {A B : Type 0} → (A → B) → Option A → Option B
map_key f none = none
map_key f (some a) = some (f a)

module _ (btc : BitcoinCodecs) (secp : Secp256k1) (sigs : Signatures) where
  open btc use {u8, u32, u64, bool, bytes, array}
  open secp use {PublicKey, serialize, from_slice}
  open sigs use {Ecdsa, Schnorr, SecretKey, secret_bytes, secret_from_slice}

  abbrev pub Signature : Type 0
  Signature = SparkSignature Ecdsa Schnorr

  abbrev pub OwnerSignature : Type 0
  OwnerSignature = OperatorSpecificOwnerSignature PublicKey Signature

  -- The input index is not written.
  unfoldable pub encode_owner_signature : OwnerSignature → List ℕ
  encode_owner_signature s =
      (option_wrapper btc (array 33)).encode (map_key serialize s.operator_identity_public_key)
      ++ (signature_codec btc sigs).encode s.owner_signature

  parse_key : Option (List ℕ) → Reader EncodeError (Option PublicKey)
  parse_key none = pure none
  parse_key (some bs) =
      lift (ok_or (from_slice bs) (parse_failed "Failed to parse public key bytes")) >>= λ k.
      pure (some k)

  unfoldable pub decode_owner_signature : Reader EncodeError OwnerSignature
  unfolding parse_key
  decode_owner_signature = do
    operator_key_bytes ← (option_wrapper btc (array 33)).decode
    operator_pubkey ← parse_key operator_key_bytes
    input_index ← (option_wrapper btc u32).decode
    signature ← (signature_codec btc sigs).decode
    pure (record {
      operator_identity_public_key = operator_pubkey;
      owner_signature = signature;
      input_index = input_index;
    })

  abbrev pub owner_signature_codec : Codec OwnerSignature
  owner_signature_codec = record {
    encode = encode_owner_signature;
    decode = decode_owner_signature;
  }

  abbrev pub key33 : Codec PublicKey
  key33 = key_codec btc secp "Failed to parse public key bytes"

  abbrev pub leaf_output_codec : Codec (TokenLeafOutput PublicKey)
  leaf_output_codec = record {
    encode = encode_leaf_output btc secp;
    decode = decode_leaf_output btc secp;
  }

  abbrev pub leaf_to_spend_codec : Codec TokenLeafToSpend
  leaf_to_spend_codec = record {
    encode = encode_leaf_to_spend btc secp;
    decode = decode_leaf_to_spend btc secp;
  }

  unfoldable pub encode_input : TokenTransactionInput PublicKey Signature → List ℕ
  encode_input (mint issuer signature timestamp) =
      u8.encode 0
      ++ (key33.encode issuer
          ++ (u64.encode timestamp ++ (option_wrapper btc owner_signature_codec).encode signature))
  encode_input (transfer leaves) =
      u8.encode 1 ++ (vec_wrapper btc leaf_to_spend_codec).encode leaves

  unfoldable pub decode_mint : Reader EncodeError (TokenTransactionInput PublicKey Signature)
  decode_mint = do
    issuer_public_key ← key33.decode
    issuer_provided_timestamp ← u64.decode
    issuer_signature ← (option_wrapper btc owner_signature_codec).decode
    pure (mint issuer_public_key issuer_signature issuer_provided_timestamp)

  unfoldable pub decode_input : Reader EncodeError (TokenTransactionInput PublicKey Signature)
  decode_input = do
    input_type ← u8.decode
    if input_type == 0
        then decode_mint
        else if input_type == 1
        then ((vec_wrapper btc leaf_to_spend_codec).decode >>= λ leaves. pure (transfer leaves))
        else fail (parse_failed "Unsupported token transaction input")

  unfoldable pub encode_token_transaction : TokenTransaction PublicKey Signature → List ℕ
  encode_token_transaction t =
      (vec_wrapper btc leaf_output_codec).encode t.leaves_to_create
      ++ (encode_input t.input
          ++ ((vec_wrapper btc key33).encode t.spark_operator_identity_public_keys
              ++ (option_wrapper btc u32).encode t.network))

  unfoldable pub decode_token_transaction :
      Reader EncodeError (TokenTransaction PublicKey Signature)
  decode_token_transaction = do
    leaves_to_create ← (vec_wrapper btc leaf_output_codec).decode
    input ← decode_input
    keys ← (vec_wrapper btc key33).decode
    network ← (option_wrapper btc u32).decode
    pure (record {
      input = input;
      leaves_to_create = leaves_to_create;
      spark_operator_identity_public_keys = keys;
      network = network;
    })

  unfoldable pub encode_leaf_data : SparkSignatureLeafData SecretKey → List ℕ
  encode_leaf_data d =
      u32.encode d.token_tx_leaf_index
      ++ (option_wrapper btc (array 32)).encode (map_key secret_bytes d.revocation_secret)

  -- `and_then(|key_bytes| SecretKey::from_slice(&key_bytes).ok())`
  abbrev parse_secret : Option (List ℕ) → Option SecretKey
  parse_secret none = none
  parse_secret (some bs) = secret_from_slice bs

  unfoldable pub decode_leaf_data : Reader EncodeError (SparkSignatureLeafData SecretKey)
  decode_leaf_data = do
    token_tx_leaf_index ← u32.decode
    revocation_private_key ← (option_wrapper btc (array 32)).decode
    pure (record {
      token_tx_leaf_index = token_tx_leaf_index;
      revocation_secret = parse_secret revocation_private_key;
    })

  abbrev pub leaf_data_codec : Codec (SparkSignatureLeafData SecretKey)
  leaf_data_codec = record { encode = encode_leaf_data; decode = decode_leaf_data }

  abbrev pub Data : Type 0
  Data = SparkSignatureData PublicKey Signature SecretKey

  unfoldable pub encode_signature_data : Data → List ℕ
  encode_signature_data d =
      (array 32).encode d.token_tx_hash
      ++ (key33.encode d.operator_pubkey
          ++ ((signature_codec btc sigs).encode d.operator_signature
              ++ ((option_wrapper btc owner_signature_codec).encode
                    d.operator_specific_owner_signature
                  ++ (vec_wrapper btc leaf_data_codec).encode d.outputs_to_spend_data)))

  unfoldable pub decode_signature_data : Reader EncodeError Data
  decode_signature_data = do
    token_tx_hash ← (array 32).decode
    operator_pubkey ← (key_codec btc secp "Failed to parse operator public key bytes").decode
    operator_signature ← (signature_codec btc sigs).decode
    operator_specific_data ← (option_wrapper btc owner_signature_codec).decode
    leaves_to_spend_data ← (vec_wrapper btc leaf_data_codec).decode
    pure (record {
      operator_specific_owner_signature = operator_specific_data;
      operator_pubkey = operator_pubkey;
      operator_signature = operator_signature;
      token_tx_hash = token_tx_hash;
      outputs_to_spend_data = leaves_to_spend_data;
    })

  unfoldable pub encode_freeze : TokensFreezeData PublicKey Signature → List ℕ
  encode_freeze f =
      (signature_codec btc sigs).encode f.issuer_signature
      ++ (key33.encode f.owner_public_key
          ++ (key33.encode f.operator_identity_public_key
              ++ (bool.encode f.should_unfreeze
                  ++ ((array 33).encode (token_pubkey_to_bytes secp f.token_public_key)
                      ++ u64.encode f.timestamp))))

  unfoldable pub decode_freeze : Reader EncodeError (TokensFreezeData PublicKey Signature)
  decode_freeze = do
    issuer_signature ← (signature_codec btc sigs).decode
    owner_public_key ← key33.decode
    operator_identity_public_key ← key33.decode
    should_unfreeze ← bool.decode
    token_bytes ← (array 33).decode
    token_public_key ← lift (
        map_err (λ e. parse_failed "Failed to parse public key bytes")
          (token_pubkey_from_bytes secp token_bytes))
    timestamp ← u64.decode
    pure (record {
      operator_identity_public_key = operator_identity_public_key;
      owner_public_key = owner_public_key;
      token_public_key = token_public_key;
      should_unfreeze = should_unfreeze;
      issuer_signature = issuer_signature;
      timestamp = timestamp;
    })
