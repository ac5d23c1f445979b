-- ===== src/Samples.antt =====
-- Concrete stand-ins for the crates that are parameters, for the tests: they meet the documented facts.
use lrc.Proof.{ReceiptProof, sig}
use lrc.Common.{
  ℕ, ◌<◌, ◌^◌, ◌≡◌, ◌==◌, ◌⊎◌, inl, refl, arith, Bool, true, false, not, if◌then◌else◌, List, [],
  ◌∷◌, ◌++◌, Option, none, some, length, replicate, ==→eq, ==_refl,
}
use lrc.Common.Words.{to_le_bytes, from_le_bytes, from_le_bytes-to_le_bytes, length-to_le_bytes}
use lrc.Codec.{Codec, RoundTrips, Reader, EncodeError, io}
use lrc.Codec.Bytes.{read_exact, read_exact-append}
use lrc.Codec.Bitcoin.{BitcoinCodecs}
use lrc.Keys.{Secp256k1, KeyEq}
use lrc.Proof.Metadata.{Json}
use lrc.Announcements.Script.{Scripts, op, push_bytes}
use lrc.Outcome.{ok, err, guard, ◌>>=◌}
use lrc.Spark.{Signatures}
use lrc.Checks.{BitcoinTypes, ScriptKinds, CheckableProof}

-- A key is a number, in the first byte of its serialization.
abbrev key_of : List ℕ → Option ℕ
key_of [] = none
key_of (k ∷ bs) = if length bs == 32 then some k else none

pub key_of_size : (bs : List ℕ) (k : ℕ) → key_of bs ≡ some k → (length bs ≡ 33) ⊎ (length bs ≡ 65)
key_of_size [] k e = cc
key_of_size (j ∷ bs) k e = inl (ground arith)

abbrev pub secp : Secp256k1
secp = record {
  PublicKey = ℕ;
  serialize = λ k. k ∷ replicate 32 0;
  from_slice = key_of;
  from_xonly_slice = λ bs. none;
  length-serialize = λ k. refl;
  from_slice-serialize = λ k. refl;
  from_slice_size = key_of_size;
}

abbrev pub keys : KeyEq ℕ
keys = record { same = ◌==◌; same_refl = ==_refl; same→eq = ==→eq }

abbrev word_codec : ℕ → Codec ℕ
word_codec w = record {
  encode = λ n. to_le_bytes w n;
  decode = λ bs. read_exact io w bs >>= λ p. ok (from_le_bytes p.0, p.1);
}

pub word_codec_lem : (w : ℕ) → RoundTrips (word_codec w) (λ n. n < 256 ^ w)
word_codec_lem w n h rest = simp (
  read_exact-append io w (to_le_bytes w n) rest (length-to_le_bytes w n),
  from_le_bytes-to_le_bytes w n h,
)

abbrev decode_bool : Reader EncodeError Bool
decode_bool [] = err io
decode_bool (b ∷ bs) = ok (not (b == 0), bs)

abbrev encode_bool : Bool → List ℕ
encode_bool true = 1 ∷ []
encode_bool false = 0 ∷ []

pub decode_bool_lem :
    (b : Bool) → Unit {0} → (rest : List ℕ) → decode_bool (encode_bool b ++ rest) ≡ ok (b, rest)
decode_bool_lem true u rest = refl
decode_bool_lem false u rest = refl

abbrev decode_u8 : Reader EncodeError ℕ
decode_u8 [] = err io
decode_u8 (b ∷ bs) = ok (b, bs)

-- Byte strings behind their length, as one element.
abbrev decode_bytes : Reader EncodeError (List ℕ)
decode_bytes [] = err io
decode_bytes (n ∷ bs) = read_exact io n bs

abbrev pub btc : BitcoinCodecs
btc = record {
  u8 = record { encode = λ n. n ∷ []; decode = decode_u8 };
  u16 = word_codec 2;
  u32 = word_codec 4;
  u64 = word_codec 8;
  bool = record { encode = encode_bool; decode = decode_bool };
  bytes = record { encode = λ bs. length bs ∷ bs; decode = decode_bytes };
  array = λ w. record { encode = λ bs. bs; decode = read_exact io w };
  u8_lem = λ n h rest. refl;
  u16_lem = word_codec_lem 2;
  u32_lem = word_codec_lem 4;
  u64_lem = word_codec_lem 8;
  bool_lem = decode_bool_lem;
  bytes_lem = λ bs h rest. read_exact-append io (length bs) bs rest refl;
  bytes_short = λ bs h. refl;
  array_lem = λ w bs h rest. read_exact-append io w bs rest h;
}

abbrev value_of : List ℕ → Option ℕ
value_of [] = none
value_of (v ∷ bs) = some v

abbrev pub json : Json
json = record {
  Value = ℕ;
  to_vec = λ v. v ∷ [];
  from_slice = value_of;
  to_vec_nonempty = λ v. omega arith;
}

abbrev is_return : List ℕ → Bool
is_return [] = false
is_return (c ∷ bs) = c == 0x6a

abbrev pub scripts : Scripts
scripts = record {
  is_op_return = is_return;
  instructions = λ s. elim s [ [] ↦ some [] | c ∷ bs ↦ some (op c ∷ push_bytes bs ∷ []) ];
  op_return_push = λ bs. 0x6a ∷ bs;
  is_op_return-op_return_push = λ bs. refl;
  instructions-op_return_push = λ bs. refl;
}

abbrev pub sigs : Signatures
sigs = record {
  Ecdsa = ℕ;
  Schnorr = ℕ;
  SecretKey = ℕ;
  serialize_compact = λ s. s ∷ replicate 63 0;
  from_compact = value_of;
  serialize_schnorr = λ s. s ∷ replicate 63 0;
  schnorr_from_slice = value_of;
  secret_bytes = λ s. s ∷ replicate 31 0;
  secret_from_slice = value_of;
  length-serialize_compact = λ s. refl;
  from_compact-serialize_compact = λ s. refl;
  length-serialize_schnorr = λ s. refl;
  schnorr_from_slice-serialize_schnorr = λ s. refl;
  length-secret_bytes = λ s. refl;
  secret_from_slice-secret_bytes = λ s. refl;
}

-- A transaction is its inputs, which are numbers, and the scripts of its outputs.
abbrev pub bitcoin : BitcoinTypes
bitcoin = record {
  Tx = List ℕ × List (List ℕ);
  TxIn = ℕ;
  TxOut = List ℕ;
  input = λ tx. tx.0;
  output = λ tx. tx.1;
  script_pubkey = λ o. o;
}

abbrev pub kinds : ScriptKinds
kinds = record {
  is_p2pkh = λ s. length s == 25;
  is_p2sh = λ s. length s == 23;
  is_p2wpkh = λ s. length s == 22;
  is_p2wsh = λ s. length s == 34;
}

-- An input is proved where its number is not 0, an output where its script is one byte long.
abbrev pub checkable : CheckableProof ℕ ℕ (Unit {0}) ℕ (List ℕ)
checkable = record {
  checked_check_by_input = λ p i. guard (not (i == 0)) tt;
  checked_check_by_output = λ p o. guard (length o == 1) tt;
}

-- The codec that stands for that of Bitcoin transactions: two bytes.
abbrev pub tx_codec : Codec (List ℕ)
tx_codec = record { encode = λ t. t; decode = read_exact io 2 }

pub tx_codec_lem : RoundTrips tx_codec (λ t. length t ≡ 2)
tx_codec_lem t h rest = read_exact-append io 2 t rest h

-- A proof of so much of the token 7.
abbrev pub proof_of : ℕ → ReceiptProof ℕ ℕ
proof_of a = sig (record {
  receipt = record {
    token_amount = record { amount = a; blinding_factor = replicate 16 0 };
    token_pubkey = 7;
  };
  inner_key = 9;
  metadata = none;
})
