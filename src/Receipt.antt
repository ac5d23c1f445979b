-- ===== src/Receipt.antt =====
-- crates/receipts/src/receipt.rs: token public keys, token amounts and receipts, and their bytes.
pub mod Laws
use lrc.Common.{ℕ, ◌+◌, List, ◌++◌, length, take, drop, ltb, replicate}
use lrc.Common.Words.{to_be_bytes, from_be_bytes}
use lrc.Outcome.{Result, ok, ◌>>=◌, ◌>>◌, guard, ok_or, map_err}
use lrc.Keys.{Secp256k1}
use mathlib.Core.Bool.{not}

abbrev pub amount_size : ℕ
amount_size = 16

abbrev pub token_amount_size : ℕ
token_amount_size = 32

abbrev pub token_pubkey_size : ℕ
token_pubkey_size = 33

abbrev pub receipt_size : ℕ
receipt_size = token_amount_size + token_pubkey_size

pub data TokenPubkeyParseError : Type 0 where
  invalid_size : ℕ → TokenPubkeyParseError
  invalid_public_key : TokenPubkeyParseError

pub data TokenAmountParseError : Type 0 where
  invalid_size : ℕ → TokenAmountParseError

pub data ReceiptParseError : Type 0 where
  incorrect_size : ℕ → ReceiptParseError
  invalid_token_amount : TokenAmountParseError → ReceiptParseError
  invalid_token_pubkey : TokenPubkeyParseError → ReceiptParseError

-- `amount` is a u128; `blinding_factor` an array of 16 bytes.
pub record TokenAmount : Type 0 where
  pub amount : ℕ
  pub blinding_factor : List ℕ

-- `TokenPubkey` is a newtype of the public key: `K` is the type of keys.
pub record Receipt (K : Type 0) : Type 0 where
  pub token_amount : TokenAmount
  pub token_pubkey : K

-- `Receipt::empty`; `zero_key` is `ZERO_PUBLIC_KEY`, the key whose 33 bytes are all 2.
unfoldable pub empty : {K : Type 0} → K → Receipt K
empty zero_key = record {
  token_amount = record { amount = 0; blinding_factor = replicate 16 0 };
  token_pubkey = zero_key;
}

unfoldable pub amount_to_bytes : TokenAmount → List ℕ
amount_to_bytes a = to_be_bytes amount_size a.amount ++ a.blinding_factor

unfoldable pub amount_from_array : List ℕ → TokenAmount
amount_from_array bytes = record {
  amount = from_be_bytes (take amount_size bytes);
  blinding_factor = drop amount_size bytes;
}

unfoldable pub amount_from_bytes : List ℕ → Result TokenAmountParseError TokenAmount
unfolding amount_from_array
amount_from_bytes bytes = do
  guard (not (ltb (length bytes) token_amount_size))
      (TokenAmountParseError.invalid_size (length bytes))
  ok (amount_from_array (take token_amount_size bytes))

module _ (secp : Secp256k1) where
  open secp use {PublicKey, serialize, from_slice}

  unfoldable pub token_pubkey_to_bytes : PublicKey → List ℕ
  token_pubkey_to_bytes k = serialize k

  unfoldable pub token_pubkey_from_bytes : List ℕ → Result TokenPubkeyParseError PublicKey
  token_pubkey_from_bytes bytes = do
    guard (not (ltb (length bytes) token_pubkey_size))
        (TokenPubkeyParseError.invalid_size (length bytes))
    ok_or (from_slice bytes) invalid_public_key

  unfoldable pub receipt_to_bytes : Receipt PublicKey → List ℕ
  unfolding amount_to_bytes token_pubkey_to_bytes
  receipt_to_bytes r = amount_to_bytes r.token_amount ++ token_pubkey_to_bytes r.token_pubkey

  unfoldable pub receipt_from_bytes : List ℕ → Result ReceiptParseError (Receipt PublicKey)
  receipt_from_bytes bytes = do
    guard (not (ltb (length bytes) receipt_size)) (incorrect_size (length bytes))
    token_amount ← map_err invalid_token_amount (amount_from_bytes (take token_amount_size bytes))
    token_pubkey ←
        map_err invalid_token_pubkey
          (token_pubkey_from_bytes (drop token_amount_size (take receipt_size bytes)))
    ok (record { token_amount = token_amount; token_pubkey = token_pubkey })
