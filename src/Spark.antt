-- ===== src/Spark.antt =====
-- crates/types/src/spark: token transactions of the Spark operators, their signatures and freezes.
-- `K` is the type of public keys; a hash, a txid and a block hash are their 32 bytes.
pub mod Wire
pub mod Transactions
pub mod WireLaws
pub mod TransactionLaws
use lrc.Common.{ℕ, ◌≡◌, Bool, List, Option, some, length}
use lrc.Receipt.{Receipt}

-- The signatures and secret keys of the `secp256k1` crate, with the documented facts about them.
pub record Signatures : Type 1 where
  pub Ecdsa : Type 0
  pub Schnorr : Type 0
  pub SecretKey : Type 0
  pub serialize_compact : Ecdsa → List ℕ
  pub from_compact : List ℕ → Option Ecdsa
  pub serialize_schnorr : Schnorr → List ℕ
  pub schnorr_from_slice : List ℕ → Option Schnorr
  pub secret_bytes : SecretKey → List ℕ
  pub secret_from_slice : List ℕ → Option SecretKey
  pub length-serialize_compact : (s : Ecdsa) → length (serialize_compact s) ≡ 64
  pub from_compact-serialize_compact : (s : Ecdsa) → from_compact (serialize_compact s) ≡ some s
  pub length-serialize_schnorr : (s : Schnorr) → length (serialize_schnorr s) ≡ 64
  pub schnorr_from_slice-serialize_schnorr :
      (s : Schnorr) → schnorr_from_slice (serialize_schnorr s) ≡ some s
  pub length-secret_bytes : (s : SecretKey) → length (secret_bytes s) ≡ 32
  pub secret_from_slice-secret_bytes : (s : SecretKey) → secret_from_slice (secret_bytes s) ≡ some s

pub data SparkSignature (E S : Type 0) : Type 0 where
  ecdsa : E → SparkSignature E S
  schnorr : S → SparkSignature E S

-- `G` is the type of `SparkSignature`.
pub record OperatorSpecificOwnerSignature (K G : Type 0) : Type 0 where
  pub operator_identity_public_key : Option K
  pub owner_signature : G
  pub input_index : Option ℕ

pub record TokenLeafToSpend : Type 0 where
  pub parent_output_hash : List ℕ
  pub parent_output_vout : ℕ

-- `id` is a `String`, its UTF-8 bytes; the lock time is its consensus u32.
pub record TokenLeafOutput (K : Type 0) : Type 0 where
  pub id : List ℕ
  pub owner_public_key : K
  pub revocation_public_key : K
  pub withdrawal_bond_sats : ℕ
  pub withdrawal_locktime : ℕ
  pub receipt : Receipt K
  pub is_frozen : Option Bool
  pub withdraw_txid : Option (List ℕ)
  pub withdraw_tx_vout : Option ℕ
  pub withdraw_height : Option ℕ
  pub withdraw_block_hash : Option (List ℕ)

pub data TokenTransactionInput (K G : Type 0) : Type 0 where
  mint : K → Option (OperatorSpecificOwnerSignature K G) → ℕ → TokenTransactionInput K G
  transfer : List TokenLeafToSpend → TokenTransactionInput K G

pub record TokenTransaction (K G : Type 0) : Type 0 where
  pub input : TokenTransactionInput K G
  pub leaves_to_create : List (TokenLeafOutput K)
  pub spark_operator_identity_public_keys : List K
  pub network : Option ℕ

-- signature.rs; `S` is the type of secret keys.
pub record SparkSignatureLeafData (S : Type 0) : Type 0 where
  pub token_tx_leaf_index : ℕ
  pub revocation_secret : Option S

pub record SparkSignatureData (K G S : Type 0) : Type 0 where
  pub operator_specific_owner_signature : Option (OperatorSpecificOwnerSignature K G)
  pub operator_pubkey : K
  pub operator_signature : G
  pub token_tx_hash : List ℕ
  pub outputs_to_spend_data : List (SparkSignatureLeafData S)

pub record TokensFreezeData (K G : Type 0) : Type 0 where
  pub operator_identity_public_key : K
  pub owner_public_key : K
  pub token_public_key : K
  pub should_unfreeze : Bool
  pub issuer_signature : G
  pub timestamp : ℕ
