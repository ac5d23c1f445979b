-- ===== src/Proof/WireLaws.antt =====
-- Receipts and proofs are read back from their wire forms.
use lrc.Common.{
  ℕ, List, String, [], append_assoc, arith, length, refl, ◌%◌, ◌++◌, ◌<◌, ◌^◌, ◌∷◌, ◌≡◌,
}
use lrc.Codec.{EncodeError, io}
use lrc.Codec.Bitcoin.{BitcoinCodecs}
use lrc.Keys.{Secp256k1}
use lrc.Receipt.{Receipt, receipt_to_bytes}
use lrc.Receipt.Laws.{IsAmount, length-receipt_to_bytes, receipt_from_bytes-receipt_to_bytes}
use lrc.Proof.Metadata.{Json, IsReadBack, try_read-try_write_metadata}
use lrc.Proof.{
  EmptyReceiptProof, P2wpkhProof, P2wshProof, TaprootProof, MultisigReceiptProof,
  LightningCommitmentProof, HtlcScriptKind, offered, received, LightningHtlcProof, SparkExitProof,
  ReceiptProof, empty_receipt, sig, multisig, lightning, lightning_htlc, p2wsh, p2tr, spark_exit,
}
use lrc.Proof.Wire.{
  encode_receipt, decode_receipt, read_key, encode_empty, decode_empty, encode_p2wsh, decode_p2wsh,
  encode_keys, decode_keys, encode_multisig, decode_multisig, encode_lightning, decode_lightning,
  encode_htlc_kind, decode_htlc_kind, encode_htlc, decode_htlc, encode_lightning_htlc,
  decode_lightning_htlc, encode_sig, decode_sig, encode_p2tr, decode_p2tr, encode_spark_exit,
  decode_spark_exit, encode_proof, decode_flagged, decode_proof,
}
use lrc.Outcome.{ok}
use lrc.Codec.Bytes.{read_exact-append}

module _ (secp : Secp256k1) where
  open secp use {PublicKey, serialize, length-serialize, from_slice-serialize}

  pub decode_receipt_lem :
      (r : Receipt PublicKey)
      → IsAmount r.token_amount
      → (rest : List ℕ) → decode_receipt secp (encode_receipt secp r ++ rest) ≡ ok (r, rest)
  unfolding decode_receipt encode_receipt
  decode_receipt_lem r v rest = rw (
    read_exact-append io 65 (receipt_to_bytes secp r) rest (length-receipt_to_bytes secp r v),
    receipt_from_bytes-receipt_to_bytes secp r v,
  )

  pub read_key_lem :
      (e : EncodeError) (text : String) (k : PublicKey) (rest : List ℕ)
      → read_key secp e text (serialize k ++ rest) ≡ ok (k, rest)
  unfolding read_key
  read_key_lem e text k rest =
      rw (read_exact-append e 33 (serialize k) rest (length-serialize k), from_slice-serialize k)

  decode_empty_lem :
      (p : EmptyReceiptProof PublicKey) (rest : List ℕ)
      → decode_empty secp (encode_empty secp p ++ rest) ≡ ok (p, rest)
  unfolding decode_empty encode_empty
  decode_empty_lem p rest = simp read_key_lem

module _ (btc : BitcoinCodecs) (secp : Secp256k1) where
  open btc use {u8, u16, u32, bytes, u8_lem, u16_lem, u32_lem, bytes_lem}
  open secp use {PublicKey}

  -- The script is shorter than 2^16 bytes, which is less than the codec of byte strings reads.
  pub record IsP2wsh (p : P2wshProof PublicKey) : Type 0 where
    pub receipt : IsAmount p.receipt.token_amount
    pub script : length p.script < 2 ^ 16

  decode_p2wsh_lem :
      (p : P2wshProof PublicKey)
      → IsP2wsh p
      → (rest : List ℕ) → decode_p2wsh btc secp (encode_p2wsh btc secp p ++ rest) ≡ ok (p, rest)
  unfolding decode_p2wsh encode_p2wsh
  decode_p2wsh_lem p v rest = simp (
    append_assoc,
    decode_receipt_lem secp p.receipt v.receipt,
    read_key_lem secp,
    bytes_lem p.script v.script,
  )

  decode_keys_lem :
      (ks : List PublicKey) (rest : List ℕ)
      → decode_keys btc secp (length ks) (encode_keys btc secp ks ++ rest) ≡ ok (ks, rest)
  unfolding decode_keys encode_keys
  decode_keys_lem [] rest = refl
  decode_keys_lem (k ∷ ks) rest = simp (append_assoc, read_key_lem secp, decode_keys_lem ks rest)

  pub record IsMultisig (p : MultisigReceiptProof PublicKey) : Type 0 where
    pub receipt : IsAmount p.receipt.token_amount
    pub keys : length p.inner_keys < 2 ^ 32
    pub m_u8 : p.m < 2 ^ 8

  decode_multisig_lem :
      (p : MultisigReceiptProof PublicKey)
      → IsMultisig p
      → (rest : List ℕ)
      → decode_multisig btc secp (encode_multisig btc secp p ++ rest) ≡ ok (p, rest)
  unfolding decode_multisig encode_multisig
  decode_multisig_lem p v rest = rw fits (
      simp (
        append_assoc,
        decode_receipt_lem secp p.receipt v.receipt,
        u32_lem (length p.inner_keys) v.keys,
        decode_keys_lem,
        u8_lem p.m v.m_u8,
      ))
    where
      fits : length p.inner_keys % 2 ^ 32 ≡ length p.inner_keys
      fits = omega (arith, v.keys)

  pub record IsLightning (p : LightningCommitmentProof PublicKey) : Type 0 where
    pub receipt : IsAmount p.receipt.token_amount
    pub delay_u16 : p.to_local.to_self_delay < 2 ^ 16

  decode_lightning_lem :
      (p : LightningCommitmentProof PublicKey)
      → IsLightning p
      → (rest : List ℕ)
      → decode_lightning btc secp (encode_lightning btc secp p ++ rest) ≡ ok (p, rest)
  unfolding decode_lightning encode_lightning
  decode_lightning_lem p v rest = simp (
    append_assoc,
    decode_receipt_lem secp p.receipt v.receipt,
    read_key_lem secp,
    u16_lem p.to_local.to_self_delay v.delay_u16,
  )

  abbrev pub IsKind : HtlcScriptKind → Type 0
  IsKind offered = Unit {0}
  IsKind (received cltv_expiry) = cltv_expiry < 2 ^ 32

  decode_htlc_kind_lem :
      (k : HtlcScriptKind)
      → IsKind k
      → (rest : List ℕ)
      → decode_htlc_kind btc secp (encode_htlc_kind btc secp k ++ rest) ≡ ok (k, rest)
  unfolding decode_htlc_kind encode_htlc_kind
  decode_htlc_kind_lem offered v rest = simp (u8_lem 0 (omega arith))
  decode_htlc_kind_lem (received c) v rest =
      simp (append_assoc, u8_lem 1 (omega arith), u32_lem c v)

  pub record IsHtlc (p : LightningHtlcProof PublicKey) : Type 0 where
    pub receipt : IsAmount p.receipt.token_amount
    pub revocation_hash : length p.htlc.revocation_key_hash ≡ 20
    pub payment_hash : length p.htlc.payment_hash ≡ 20
    pub kind : IsKind p.htlc.kind

  decode_htlc_lem :
      (p : LightningHtlcProof PublicKey)
      → IsHtlc p
      → (rest : List ℕ)
      → decode_htlc btc secp (encode_htlc btc secp p.htlc ++ rest) ≡ ok (p.htlc, rest)
  unfolding decode_htlc encode_htlc
  decode_htlc_lem p v rest = simp (
    append_assoc,
    λ (ys : List ℕ). read_exact-append io 20 p.htlc.revocation_key_hash ys v.revocation_hash,
    λ (ys : List ℕ). read_exact-append io 20 p.htlc.payment_hash ys v.payment_hash,
    read_key_lem secp,
    decode_htlc_kind_lem p.htlc.kind v.kind,
  )

  decode_lightning_htlc_lem :
      (p : LightningHtlcProof PublicKey)
      → IsHtlc p
      → (rest : List ℕ)
      → decode_lightning_htlc btc secp (encode_lightning_htlc btc secp p ++ rest) ≡ ok (p, rest)
  unfolding decode_lightning_htlc encode_lightning_htlc
  decode_lightning_htlc_lem p v rest =
      simp (append_assoc, decode_receipt_lem secp p.receipt v.receipt, decode_htlc_lem p v)

module _ (btc : BitcoinCodecs) (secp : Secp256k1) (json : Json) where
  open btc use {u8, u32, u8_lem, u32_lem}
  open secp use {PublicKey}
  open json use {Value}

  pub record IsSig (p : P2wpkhProof PublicKey Value) : Type 0 where
    pub receipt : IsAmount p.receipt.token_amount
    pub metadata : IsReadBack json p.metadata

  decode_sig_lem :
      (p : P2wpkhProof PublicKey Value)
      → IsSig p
      → (rest : List ℕ)
      → decode_sig btc secp json (encode_sig btc secp json p ++ rest) ≡ ok (p, rest)
  unfolding decode_sig encode_sig
  decode_sig_lem p v rest = simp (
    append_assoc,
    decode_receipt_lem secp p.receipt v.receipt,
    read_key_lem secp,
    try_read-try_write_metadata json p.metadata v.metadata,
  )

  pub record IsTaproot (p : TaprootProof PublicKey Value) : Type 0 where
    pub receipt : IsAmount p.receipt.token_amount
    pub metadata : IsReadBack json p.metadata

  decode_p2tr_lem :
      (p : TaprootProof PublicKey Value)
      → IsTaproot p
      → (rest : List ℕ)
      → decode_p2tr btc secp json (encode_p2tr btc secp json p ++ rest) ≡ ok (p, rest)
  unfolding decode_p2tr encode_p2tr
  decode_p2tr_lem p v rest = simp (
    append_assoc,
    decode_receipt_lem secp p.receipt v.receipt,
    read_key_lem secp,
    try_read-try_write_metadata json p.metadata v.metadata,
  )

  pub record IsSparkExit (p : SparkExitProof PublicKey Value) : Type 0 where
    pub receipt : IsAmount p.receipt.token_amount
    pub locktime_u32 : p.script.locktime < 2 ^ 32
    pub metadata : IsReadBack json p.metadata

  decode_spark_exit_lem :
      (p : SparkExitProof PublicKey Value)
      → IsSparkExit p
      → (rest : List ℕ)
      → decode_spark_exit btc secp json (encode_spark_exit btc secp json p ++ rest) ≡ ok (p, rest)
  unfolding decode_spark_exit encode_spark_exit
  decode_spark_exit_lem p v rest = simp (
    append_assoc,
    decode_receipt_lem secp p.receipt v.receipt,
    read_key_lem secp,
    u32_lem p.script.locktime v.locktime_u32,
    try_read-try_write_metadata json p.metadata v.metadata,
  )

  -- For each kind of proof: amounts, numbers and arrays are in the ranges of their types, metadata is
  -- read back by serde_json from less than 2^32 bytes, keys are fewer than 2^32, and a P2WSH script is
  -- shorter than 2^16 bytes.
  abbrev pub IsProof : ReceiptProof PublicKey Value → Type 0
  IsProof (sig p) = IsSig p
  IsProof (p2wsh p) = IsP2wsh btc secp p
  IsProof (p2tr p) = IsTaproot p
  IsProof (empty_receipt p) = Unit {0}
  IsProof (multisig p) = IsMultisig btc secp p
  IsProof (lightning p) = IsLightning btc secp p
  IsProof (lightning_htlc p) = IsHtlc btc secp p
  IsProof (spark_exit p) = IsSparkExit p

  -- Every kind of receipt proof is read back from its wire form, and what follows it is left, where its
  -- fields are in the ranges of their types, its metadata is none or is read back by serde_json from
  -- fewer than 2^32 bytes, a multisig proof has fewer than 2^32 keys and a P2WSH script is shorter than
  -- 2^16 bytes.
  pub receipt_proof_codec_lem :
      (p : ReceiptProof PublicKey Value)
      → IsProof p
      → (rest : List ℕ)
      → decode_proof btc secp json (encode_proof btc secp json p ++ rest) ≡ ok (p, rest)
  unfolding encode_proof decode_proof decode_flagged
  receipt_proof_codec_lem (sig p) v rest =
      simp (append_assoc, u8_lem 0 (omega arith), decode_sig_lem p v)
  receipt_proof_codec_lem (p2wsh p) v rest =
      simp (append_assoc, u8_lem 6 (omega arith), decode_p2wsh_lem btc secp p v)
  receipt_proof_codec_lem (p2tr p) v rest =
      simp (append_assoc, u8_lem 7 (omega arith), decode_p2tr_lem p v)
  receipt_proof_codec_lem (empty_receipt p) v rest =
      simp (append_assoc, u8_lem 5 (omega arith), decode_empty_lem secp p)
  receipt_proof_codec_lem (multisig p) v rest =
      simp (append_assoc, u8_lem 1 (omega arith), decode_multisig_lem btc secp p v)
  receipt_proof_codec_lem (lightning p) v rest =
      simp (append_assoc, u8_lem 2 (omega arith), decode_lightning_lem btc secp p v)
  receipt_proof_codec_lem (lightning_htlc p) v rest =
      simp (append_assoc, u8_lem 3 (omega arith), decode_lightning_htlc_lem btc secp p v)
  receipt_proof_codec_lem (spark_exit p) v rest =
      simp (append_assoc, u8_lem 8 (omega arith), decode_spark_exit_lem p v)
