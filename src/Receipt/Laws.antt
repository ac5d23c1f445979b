-- ===== src/Receipt/Laws.antt =====
-- Round trips of the byte forms of receipt.rs.
use lrc.Common.{
  ℕ, ◌≡◌, ◌<◌, ◌^◌, ◌⊎◌, inl, inr, List, arith, length, length-append, take, drop, take-append,
  drop-append, take_whole, le→ltb, Option-cases,
}
use lrc.Common.Words.{to_be_bytes, from_be_bytes-to_be_bytes, length-to_be_bytes}
use lrc.Outcome.{ok}
use lrc.Keys.{Secp256k1}
use lrc.Receipt.{
  TokenAmount, Receipt, amount_size, amount_to_bytes, amount_from_array, amount_from_bytes,
  token_pubkey_to_bytes, token_pubkey_from_bytes, receipt_to_bytes, receipt_from_bytes,
}

-- The ranges that the field types `u128` and `[u8; 16]` give.
pub record IsAmount (a : TokenAmount) : Type 0 where
  pub amount_u128 : a.amount < 2 ^ 128
  pub blinding_size : length a.blinding_factor ≡ 16

pub length-amount_to_bytes : (a : TokenAmount) → IsAmount a → length (amount_to_bytes a) ≡ 32
unfolding amount_to_bytes
length-amount_to_bytes a v = omega (
  arith,
  length-append (to_be_bytes amount_size a.amount) a.blinding_factor,
  length-to_be_bytes amount_size a.amount,
)

pub amount_from_array-amount_to_bytes :
    (a : TokenAmount) → IsAmount a → amount_from_array (amount_to_bytes a) ≡ a
unfolding amount_from_array amount_to_bytes
amount_from_array-amount_to_bytes a v = rw (
  take-append 16 (to_be_bytes amount_size a.amount) a.blinding_factor size,
  drop-append 16 (to_be_bytes amount_size a.amount) a.blinding_factor size,
  from_be_bytes-to_be_bytes amount_size a.amount v.amount_u128,
)
  where
    size : length (to_be_bytes amount_size a.amount) ≡ 16
    size = length-to_be_bytes amount_size a.amount

pub amount_from_bytes-amount_to_bytes :
    (a : TokenAmount) → IsAmount a → amount_from_bytes (amount_to_bytes a) ≡ ok a
unfolding amount_from_bytes
amount_from_bytes-amount_to_bytes a v = rw (
  le→ltb (length (amount_to_bytes a)) 32 (omega (arith, length-amount_to_bytes a v)),
  take_whole 32 (amount_to_bytes a) (length-amount_to_bytes a v),
  amount_from_array-amount_to_bytes a v,
)

module _ (secp : Secp256k1) where
  open secp use {PublicKey, length-serialize, from_slice, from_slice-serialize, from_slice_size}

  pub length-token_pubkey_to_bytes : (k : PublicKey) → length (token_pubkey_to_bytes secp k) ≡ 33
  unfolding token_pubkey_to_bytes
  length-token_pubkey_to_bytes k = length-serialize k

  -- A token public key is read back from its bytes.
  pub token_pubkey_from_bytes-token_pubkey_to_bytes :
      (k : PublicKey) → token_pubkey_from_bytes secp (token_pubkey_to_bytes secp k) ≡ ok k
  unfolding token_pubkey_from_bytes token_pubkey_to_bytes
  token_pubkey_from_bytes-token_pubkey_to_bytes k = rw (length-serialize k, from_slice-serialize k)

  pub token_pubkey_from_bytes_size :
      (bs : List ℕ) (k : PublicKey)
      → token_pubkey_from_bytes secp bs ≡ ok k
      → (length bs ≡ 33) ⊎ (length bs ≡ 65)
  unfolding token_pubkey_from_bytes
  token_pubkey_from_bytes_size bs k h = elim (Option-cases (from_slice bs)) [
    | inl e ↦ absurd (ground (arith, e))
    | inr (k', e) ↦ from_slice_size bs k' e
  ]

  pub length-receipt_to_bytes :
      (r : Receipt PublicKey) → IsAmount r.token_amount → length (receipt_to_bytes secp r) ≡ 65
  unfolding receipt_to_bytes
  length-receipt_to_bytes r v = omega (
    arith,
    length-append (amount_to_bytes r.token_amount) (token_pubkey_to_bytes secp r.token_pubkey),
    length-amount_to_bytes r.token_amount v,
    length-token_pubkey_to_bytes r.token_pubkey,
  )

  receipt_front :
      (r : Receipt PublicKey)
      → IsAmount r.token_amount
      → take 32 (receipt_to_bytes secp r) ≡ amount_to_bytes r.token_amount
  unfolding receipt_to_bytes
  receipt_front r v =
      take-append 32 (amount_to_bytes r.token_amount) (token_pubkey_to_bytes secp r.token_pubkey)
        (length-amount_to_bytes r.token_amount v)

  receipt_back :
      (r : Receipt PublicKey)
      → IsAmount r.token_amount
      → drop 32 (receipt_to_bytes secp r) ≡ token_pubkey_to_bytes secp r.token_pubkey
  unfolding receipt_to_bytes
  receipt_back r v =
      drop-append 32 (amount_to_bytes r.token_amount) (token_pubkey_to_bytes secp r.token_pubkey)
        (length-amount_to_bytes r.token_amount v)

  -- A receipt whose amount is a u128 with a blinding factor of 16 bytes is read back from its bytes.
  pub receipt_from_bytes-receipt_to_bytes :
      (r : Receipt PublicKey)
      → IsAmount r.token_amount
      → receipt_from_bytes secp (receipt_to_bytes secp r) ≡ ok r
  unfolding receipt_from_bytes
  receipt_from_bytes-receipt_to_bytes r v = rw (
    length-receipt_to_bytes r v,
    take_whole 65 (receipt_to_bytes secp r) (length-receipt_to_bytes r v),
    receipt_front r v,
    receipt_back r v,
    amount_from_bytes-amount_to_bytes r.token_amount v,
    token_pubkey_from_bytes-token_pubkey_to_bytes r.token_pubkey,
  )
