-- ===== src/ReceiptKey.antt =====
-- crates/receipts/src/hash.rs and keys.rs: hashes of receipts, and keys that are tweaked with them.
use lrc.Common.{ℕ, List, ◌++◌, Option, none, some}
use lrc.Receipt.{Receipt, amount_to_bytes}

-- SHA-256 and HASH160 of the bitcoin crate, and what is used of secp256k1: `PublicKey::serialize`,
-- `Scalar::from_be_bytes`, with a scalar as its number, and `PublicKey::add_exp_tweak`.
pub record Tweaks (K : Type 0) : Type 0 where
  pub sha256 : List ℕ → List ℕ
  pub hash160 : List ℕ → List ℕ
  pub serialize : K → List ℕ
  pub scalar_from_be_bytes : List ℕ → Option ℕ
  pub add_exp_tweak : K → ℕ → Option K

module _ {K : Type 0} (tweaks : Tweaks K) where
  open tweaks use {sha256, serialize, scalar_from_be_bytes, add_exp_tweak}

  -- `ReceiptHash::from(&Receipt)` with `receipt_hash_engine`
  unfoldable pub receipt_hash : Receipt K → List ℕ
  receipt_hash receipt =
      sha256 (sha256 (amount_to_bytes receipt.token_amount) ++ serialize receipt.token_pubkey)

  unfoldable pub receipthash_pubkey_hash : List ℕ → K → List ℕ
  receipthash_pubkey_hash pxh pubkey = sha256 (pxh ++ serialize pubkey)

  unfoldable pub receipt_hash_pubkey_scalar : List ℕ → K → Option ℕ
  receipt_hash_pubkey_scalar pxh pubkey = scalar_from_be_bytes (receipthash_pubkey_hash pxh pubkey)

  -- `ReceiptKey::new`
  unfoldable pub receipt_key : List ℕ → K → Option K
  receipt_key pxh inner_key = elim (receipt_hash_pubkey_scalar pxh inner_key) [
    | none ↦ none
    | some pxh_b ↦ add_exp_tweak inner_key pxh_b
  ]
