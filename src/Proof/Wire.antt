-- ===== src/Proof/Wire.antt =====
-- crates/receipts/src/consensus.rs and the files consensus.rs below crates/receipts/src/proof: the
-- wire forms of receipts and of the proofs.
use lrc.Common.{ℕ, List, String, [], if◌then◌else◌, length, suc, zero, ◌%◌, ◌++◌, ◌==◌, ◌^◌, ◌∷◌}
use lrc.Codec.{Codec, Reader, EncodeError, ◌>>=◌, pure, lift, io, parse_failed, fail}
use lrc.Codec.Bytes.{read_exact}
use lrc.Codec.Bitcoin.{BitcoinCodecs}
use lrc.Keys.{Secp256k1}
use lrc.Receipt.{Receipt, receipt_to_bytes, receipt_from_bytes}
use lrc.Proof.Metadata.{Json, try_write_metadata, try_read_metadata}
use lrc.Proof.{
  EmptyReceiptProof, P2wpkhProof, P2wshProof, TaprootProof, MultisigReceiptProof,
  LightningCommitmentProof, HtlcScriptKind, offered, received, LightningHtlcData,
  LightningHtlcProof, SparkExitProof, ReceiptProof, empty_receipt, sig, multisig, lightning,
  lightning_htlc, p2wsh, p2tr, spark_exit,
}
use lrc.Outcome.{map_err, ok_or}

module _ (secp : Secp256k1) where
  open secp use {PublicKey, serialize, from_slice}

  unfoldable pub encode_receipt : Receipt PublicKey → List ℕ
  encode_receipt r = receipt_to_bytes secp r

  unfoldable pub decode_receipt : Reader EncodeError (Receipt PublicKey)
  decode_receipt = do
    bytes ← read_exact io 65
    lift (map_err (λ e. parse_failed "failed to parse the Receipt") (receipt_from_bytes secp bytes))

  -- `read_exact` into 33 bytes and `PublicKey::from_slice`, with the error of the parse.
  unfoldable pub read_key : EncodeError → String → Reader EncodeError PublicKey
  read_key e text = do bytes ← read_exact e 33; lift (ok_or (from_slice bytes) (parse_failed text))

  unfoldable pub encode_empty : EmptyReceiptProof PublicKey → List ℕ
  encode_empty p = serialize p.inner_key

  unfoldable pub decode_empty : Reader EncodeError (EmptyReceiptProof PublicKey)
  decode_empty = do
    inner_key ← read_key io "Failed to parse the public key"
    pure (record { inner_key = inner_key })

module _ (btc : BitcoinCodecs) (secp : Secp256k1) where
  open btc use {u8, u16, u32, bytes}
  open secp use {PublicKey, serialize}

  unfoldable pub encode_p2wsh : P2wshProof PublicKey → List ℕ
  encode_p2wsh p = encode_receipt secp p.receipt ++ (serialize p.inner_key ++ bytes.encode p.script)

  unfoldable pub decode_p2wsh : Reader EncodeError (P2wshProof PublicKey)
  decode_p2wsh = do
    receipt ← decode_receipt secp
    inner_key ← read_key secp io "Failed to parse public key bytes"
    script ← bytes.decode
    pure (record { receipt = receipt; inner_key = inner_key; script = script })

  unfoldable pub encode_keys : List PublicKey → List ℕ
  encode_keys [] = []
  encode_keys (k ∷ ks) = serialize k ++ encode_keys ks

  unfoldable pub decode_keys : ℕ → Reader EncodeError (List PublicKey)
  decode_keys zero = pure []
  decode_keys (suc number_of_keys) = do
    k ←
        read_key secp (parse_failed "Failed to parse the public key")
          "Failed to create public key from bytes"
    ks ← decode_keys number_of_keys
    pure (k ∷ ks)

  unfoldable pub encode_multisig : MultisigReceiptProof PublicKey → List ℕ
  encode_multisig p =
      encode_receipt secp p.receipt
      ++ (u32.encode (length p.inner_keys % 2 ^ 32) ++ (encode_keys p.inner_keys ++ u8.encode p.m))

  unfoldable pub decode_multisig : Reader EncodeError (MultisigReceiptProof PublicKey)
  decode_multisig = do
    receipt ← decode_receipt secp
    number_of_keys ← u32.decode
    inner_keys ← decode_keys number_of_keys
    m ← u8.decode
    pure (record { receipt = receipt; inner_keys = inner_keys; m = m })

  unfoldable pub encode_lightning : LightningCommitmentProof PublicKey → List ℕ
  encode_lightning p =
      encode_receipt secp p.receipt
      ++ (serialize p.to_local.revocation_pubkey
          ++ (u16.encode p.to_local.to_self_delay ++ serialize p.to_local.local_delayed_pubkey))

  unfoldable pub decode_lightning : Reader EncodeError (LightningCommitmentProof PublicKey)
  decode_lightning = do
    receipt ← decode_receipt secp
    revocation_pubkey ← read_key secp io "Failed to parse the public key"
    to_self_delay ← u16.decode
    local_delayed_pubkey ← read_key secp io "Failed to parse the public key"
    pure (record {
      receipt = receipt;
      to_local = record {
        revocation_pubkey = revocation_pubkey;
        to_self_delay = to_self_delay;
        local_delayed_pubkey = local_delayed_pubkey;
      };
    })

  unfoldable pub encode_htlc_kind : HtlcScriptKind → List ℕ
  encode_htlc_kind offered = u8.encode 0
  encode_htlc_kind (received cltv_expiry) = u8.encode 1 ++ u32.encode cltv_expiry

  unfoldable pub decode_htlc_kind : Reader EncodeError HtlcScriptKind
  decode_htlc_kind = u8.decode >>= λ b.
      if b == 0
      then pure offered
      else if b == 1
      then (u32.decode >>= λ cltv_expiry. pure (received cltv_expiry))
      else fail (parse_failed "Unknown HTLC script kind")

  unfoldable pub encode_htlc : LightningHtlcData PublicKey → List ℕ
  unfolding encode_htlc_kind
  encode_htlc d =
      d.revocation_key_hash
      ++ (serialize d.remote_htlc_key
          ++ (serialize d.local_htlc_key ++ (d.payment_hash ++ encode_htlc_kind d.kind)))

  unfoldable pub decode_htlc : Reader EncodeError (LightningHtlcData PublicKey)
  decode_htlc = do
    revocation_key_hash ← read_exact io 20
    remote_htlc_key ← read_key secp io "Failed to parse the public key"
    local_htlc_key ← read_key secp io "Failed to parse the hash"
    payment_hash ← read_exact io 20
    kind ← decode_htlc_kind
    pure (record {
      revocation_key_hash = revocation_key_hash;
      remote_htlc_key = remote_htlc_key;
      local_htlc_key = local_htlc_key;
      payment_hash = payment_hash;
      kind = kind;
    })

  unfoldable pub encode_lightning_htlc : LightningHtlcProof PublicKey → List ℕ
  encode_lightning_htlc p = encode_receipt secp p.receipt ++ encode_htlc p.htlc

  unfoldable pub decode_lightning_htlc : Reader EncodeError (LightningHtlcProof PublicKey)
  decode_lightning_htlc = do
    receipt ← decode_receipt secp
    htlc ← decode_htlc
    pure (record { receipt = receipt; htlc = htlc })

module _ (btc : BitcoinCodecs) (secp : Secp256k1) (json : Json) where
  open btc use {u8, u32}
  open secp use {PublicKey, serialize}
  open json use {Value}

  unfoldable pub encode_sig : P2wpkhProof PublicKey Value → List ℕ
  encode_sig p =
      encode_receipt secp p.receipt ++ (serialize p.inner_key ++ try_write_metadata json p.metadata)

  unfoldable pub decode_sig : Reader EncodeError (P2wpkhProof PublicKey Value)
  decode_sig = do
    receipt ← decode_receipt secp
    inner_key ← read_key secp io "Failed to parse public key bytes"
    metadata ← try_read_metadata json
    pure (record { receipt = receipt; inner_key = inner_key; metadata = metadata })

  unfoldable pub encode_p2tr : TaprootProof PublicKey Value → List ℕ
  encode_p2tr p =
      encode_receipt secp p.receipt ++ (serialize p.inner_key ++ try_write_metadata json p.metadata)

  unfoldable pub decode_p2tr : Reader EncodeError (TaprootProof PublicKey Value)
  decode_p2tr = do
    receipt ← decode_receipt secp
    inner_key ← read_key secp io "Failed to parse public key bytes"
    metadata ← try_read_metadata json
    pure (record { receipt = receipt; inner_key = inner_key; metadata = metadata })

  unfoldable pub encode_spark_exit : SparkExitProof PublicKey Value → List ℕ
  encode_spark_exit p =
      encode_receipt secp p.receipt
      ++ (serialize p.script.revocation_key
          ++ (u32.encode p.script.locktime
              ++ (serialize p.script.delay_key ++ try_write_metadata json p.metadata)))

  unfoldable pub decode_spark_exit : Reader EncodeError (SparkExitProof PublicKey Value)
  decode_spark_exit = do
    receipt ← decode_receipt secp
    revocation_pubkey ← read_key secp io "Failed to parse the public key"
    locktime ← u32.decode
    delay_pubkey ← read_key secp io "Failed to parse the public key"
    metadata ← try_read_metadata json
    pure (record {
      receipt = receipt;
      script = record {
        revocation_key = revocation_pubkey;
        delay_key = delay_pubkey;
        locktime = locktime;
      };
      metadata = metadata;
    })

  unfoldable pub encode_proof : ReceiptProof PublicKey Value → List ℕ
  encode_proof (sig proof) = u8.encode 0 ++ encode_sig proof
  encode_proof (p2wsh proof) = u8.encode 6 ++ encode_p2wsh btc secp proof
  encode_proof (p2tr proof) = u8.encode 7 ++ encode_p2tr proof
  encode_proof (empty_receipt proof) = u8.encode 5 ++ encode_empty secp proof
  encode_proof (multisig proof) = u8.encode 1 ++ encode_multisig btc secp proof
  encode_proof (lightning proof) = u8.encode 2 ++ encode_lightning btc secp proof
  encode_proof (lightning_htlc proof) = u8.encode 3 ++ encode_lightning_htlc btc secp proof
  encode_proof (spark_exit proof) = u8.encode 8 ++ encode_spark_exit proof

  -- The `match` on the flag.
  unfoldable pub decode_flagged : ℕ → Reader EncodeError (ReceiptProof PublicKey Value)
  decode_flagged flag =
      if flag == 0
      then (decode_sig >>= λ proof. pure (sig proof))
      else if flag == 6
      then (decode_p2wsh btc secp >>= λ proof. pure (p2wsh proof))
      else if flag == 7
      then (decode_p2tr >>= λ proof. pure (p2tr proof))
      else if flag == 5
      then (decode_empty secp >>= λ proof. pure (empty_receipt proof))
      else if flag == 1
      then (decode_multisig btc secp >>= λ proof. pure (multisig proof))
      else if flag == 2
      then (decode_lightning btc secp >>= λ proof. pure (lightning proof))
      else if flag == 3
      then (decode_lightning_htlc btc secp >>= λ proof. pure (lightning_htlc proof))
      else if flag == 8
      then (decode_spark_exit >>= λ proof. pure (spark_exit proof))
      else fail (parse_failed "Unknown receipt proof")

  unfoldable pub decode_proof : Reader EncodeError (ReceiptProof PublicKey Value)
  decode_proof = do flag ← u8.decode; decode_flagged flag

abbrev pub receipt_proof_codec :
    BitcoinCodecs
    → (secp : Secp256k1) (json : Json) → Codec (ReceiptProof (secp.PublicKey) (json.Value))
receipt_proof_codec btc secp json = record {
  encode = encode_proof btc secp json;
  decode = decode_proof btc secp json;
}
