-- ===== src/Spark/TransactionLaws.antt =====
-- Token transactions and freezes are read back from their wire forms; owner signatures are not.
use lrc.Common.{
  ℕ, ◌++◌, ◌<◌, ◌^◌, ◌≡◌, List, Option, none, some, length, All, append_assoc, arith, [], ◌∷◌,
}
use lrc.Codec.{parse_failed}
use lrc.Codec.Bitcoin.{BitcoinCodecs}
use lrc.Keys.{Secp256k1}
use lrc.Receipt.{token_pubkey_to_bytes}
use lrc.Receipt.Laws.{length-token_pubkey_to_bytes, token_pubkey_from_bytes-token_pubkey_to_bytes}
use lrc.Consensus.Wrappers.{encode_option, decode_option}
use lrc.Consensus.WrapperLaws.{OptionAll, option_wrapper_lem, vec_wrapper_lem}
use lrc.Outcome.{ok, err}
use lrc.Spark.{
  Signatures, TokenTransactionInput, TokenTransaction, TokensFreezeData, ecdsa, mint, transfer,
}
use lrc.Spark.Wire.{encode_signature, decode_signature}
use lrc.Spark.WireLaws.{
  signature_codec_lem, key_codec_lem, leaf_to_spend_lem, leaf_output_lem, IsLeafToSpend,
  IsLeafOutput,
}
use lrc.Spark.Transactions.{
  Signature, encode_owner_signature, decode_owner_signature, encode_input, decode_mint,
  decode_input, encode_token_transaction, decode_token_transaction, encode_freeze, decode_freeze,
  key33, leaf_output_codec, leaf_to_spend_codec,
}

module _ (btc : BitcoinCodecs) (secp : Secp256k1) (sigs : Signatures) where
  open btc use {
    u8, u32, u64, bool, bytes, array, u8_lem, u32_lem, u64_lem, bool_lem, array_lem, bytes_short,
  }
  open secp use {PublicKey, serialize, from_slice-serialize, length-serialize}

  -- The ranges of the field types; a mint without the issuer's signature.
  abbrev pub IsInput : TokenTransactionInput PublicKey (Signature btc secp sigs) → Type 0
  IsInput (mint issuer signature timestamp) = (signature ≡ none) × (timestamp < 2 ^ 64)
  IsInput (transfer leaves) = All (IsLeafToSpend btc secp) leaves × (length leaves < 2 ^ 32)

  pub record IsTokenTransaction (t : TokenTransaction PublicKey (Signature btc secp sigs))
      : Type 0 where
    pub input : IsInput t.input
    pub leaves : All (IsLeafOutput btc secp) t.leaves_to_create
    pub leaves_count : length t.leaves_to_create < 2 ^ 32
    pub keys_count : length t.spark_operator_identity_public_keys < 2 ^ 32
    pub network : OptionAll (λ n. n < 2 ^ 32) t.network

  input_lem :
      (i : TokenTransactionInput PublicKey (Signature btc secp sigs))
      → IsInput i
      → (rest : List ℕ)
      → decode_input btc secp sigs (encode_input btc secp sigs i ++ rest) ≡ ok (i, rest)
  unfolding encode_input decode_input decode_mint encode_option decode_option
  input_lem (mint issuer none timestamp) v rest = simp (
    append_assoc,
    u8_lem 0 (omega arith),
    key_codec_lem btc secp "Failed to parse public key bytes" issuer tt,
    u64_lem timestamp v.1,
  )
  input_lem (mint issuer (some s) timestamp) v rest = let no = v.0 in cc
  input_lem (transfer leaves) v rest = simp (
    append_assoc,
    u8_lem 1 (omega arith),
    vec_wrapper_lem btc (leaf_to_spend_codec btc secp sigs) (IsLeafToSpend btc secp)
        (leaf_to_spend_lem btc secp) leaves v,
  )

  any_keys : (ks : List PublicKey) → All (λ k. Unit {0}) ks
  any_keys [] = tt
  any_keys (k ∷ ks) = (tt, any_keys ks)

  -- A token transaction whose fields are in the ranges of their types is read back from its wire form,
  -- and what follows is left: a mint only without the issuer's signature, with ids of leaves that are
  -- shorter than 2^16 bytes, and with fewer than 2^32 leaves, outputs and operators.
  pub token_transaction_lem :
      (t : TokenTransaction PublicKey (Signature btc secp sigs))
      → IsTokenTransaction t
      → (rest : List ℕ)
      → decode_token_transaction btc secp sigs (encode_token_transaction btc secp sigs t ++ rest)
        ≡ ok (t, rest)
  unfolding encode_token_transaction decode_token_transaction
  token_transaction_lem t v rest = simp (
    append_assoc,
    vec_wrapper_lem btc (leaf_output_codec btc secp sigs) (IsLeafOutput btc secp)
        (leaf_output_lem btc secp) t.leaves_to_create (v.leaves, v.leaves_count),
    input_lem t.input v.input,
    vec_wrapper_lem btc (key33 btc secp sigs) (λ k. Unit {0})
        (key_codec_lem btc secp "Failed to parse public key bytes")
        t.spark_operator_identity_public_keys
        (any_keys t.spark_operator_identity_public_keys, v.keys_count),
    option_wrapper_lem btc u32 _ u32_lem t.network v.network,
  )

  -- A freeze whose timestamp is a u64 is read back from its wire form; what follows is left.
  pub freeze_lem :
      (f : TokensFreezeData PublicKey (Signature btc secp sigs))
      → f.timestamp < 2 ^ 64
      → (rest : List ℕ)
      → decode_freeze btc secp sigs (encode_freeze btc secp sigs f ++ rest) ≡ ok (f, rest)
  unfolding encode_freeze decode_freeze
  freeze_lem f v rest = simp (
    append_assoc,
    signature_codec_lem btc sigs f.issuer_signature,
    key_codec_lem btc secp "Failed to parse public key bytes" f.owner_public_key tt,
    key_codec_lem btc secp "Failed to parse public key bytes" f.operator_identity_public_key tt,
    bool_lem f.should_unfreeze tt,
    array_lem 33 (token_pubkey_to_bytes secp f.token_public_key)
        (length-token_pubkey_to_bytes secp f.token_public_key),
    token_pubkey_from_bytes-token_pubkey_to_bytes secp f.token_public_key,
    u64_lem f.timestamp v,
  )

  -- The wire form of an owner signature that is an ECDSA signature is refused by its reader, with
  -- or without a key and an input index: the reader takes the flag of the signature for that of an
  -- input index, and the signature's size for its flag.
  pub owner_signature_refused :
      (key : Option PublicKey) (s : sigs.Ecdsa) (index : Option ℕ) (rest : List ℕ)
      → decode_owner_signature btc secp sigs (
          encode_owner_signature btc secp sigs (record {
            operator_identity_public_key = key;
            owner_signature = ecdsa s;
            input_index = index;
          })
          ++ rest)
        ≡ err (parse_failed "Unsupported token transaction input")
  unfolding encode_owner_signature decode_owner_signature encode_signature decode_signature
      encode_option decode_option
  owner_signature_refused none s index rest =
      let size = sigs.length-serialize_compact s in
      simp (
        append_assoc,
        bytes_short (sigs.serialize_compact s) (omega (arith, size)),
        size,
        u8_lem 0 (omega arith),
        u8_lem 64 (omega arith),
      )
  owner_signature_refused (some k) s index rest =
      let size = sigs.length-serialize_compact s in
      simp (
        append_assoc,
        bytes_short (sigs.serialize_compact s) (omega (arith, size)),
        size,
        u8_lem 0 (omega arith),
        u8_lem 1 (omega arith),
        u8_lem 64 (omega arith),
        array_lem 33 (serialize k) (length-serialize k),
        from_slice-serialize k,
      )
