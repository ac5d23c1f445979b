-- ===== src/Consensus/Inventory.antt =====
-- `Inventory` of crates/types/src/messages/p2p.rs, which nodes send each other, and its wire form and
-- that of `InventoryWrapper` in crates/types/src/consensus.rs. A txid and a hash are their 32 bytes.
use lrc.Common.{ℕ, ◌++◌, ◌==◌, ◌≡◌, ◌<◌, ◌^◌, if◌then◌else◌, List, length, All, append_assoc, arith}
use lrc.Codec.{Codec, RoundTrips, Reader, EncodeError, ◌>>=◌, pure, fail, parse_failed}
use lrc.Codec.Bitcoin.{BitcoinCodecs}
use lrc.Keys.{Secp256k1}
use lrc.Outcome.{ok}
use lrc.Consensus.Wrappers.{encode_vec, decode_vec}
use lrc.Consensus.WrapperLaws.{vec_wrapper_lem}
use lrc.Spark.{Signatures, TokensFreezeData}
use lrc.Spark.Transactions.{Signature, encode_freeze, decode_freeze}
use lrc.Spark.TransactionLaws.{freeze_lem}

pub data Inventory (K G : Type 0) : Type 0 where
  ltx : List ℕ → Inventory K G
  spark_tx : List ℕ → Inventory K G
  spark_signatures : List ℕ → Inventory K G
  spark_freeze : TokensFreezeData K G → Inventory K G

module _ (btc : BitcoinCodecs) (secp : Secp256k1) (sigs : Signatures) where
  open btc use {u8, array, u8_lem, array_lem}
  open secp use {PublicKey}

  abbrev pub Item : Type 0
  Item = Inventory PublicKey (Signature btc secp sigs)

  unfoldable pub encode_inventory : Item → List ℕ
  encode_inventory (ltx txid) = u8.encode 0 ++ (array 32).encode txid
  encode_inventory (spark_tx hash) = u8.encode 1 ++ (array 32).encode hash
  encode_inventory (spark_signatures hash) = u8.encode 2 ++ (array 32).encode hash
  encode_inventory (spark_freeze freeze) = u8.encode 3 ++ encode_freeze btc secp sigs freeze

  unfoldable pub decode_inventory : Reader EncodeError Item
  decode_inventory = u8.decode >>= λ flag.
      if flag == 0
      then ((array 32).decode >>= λ txid. pure (ltx txid))
      else if flag == 1
      then ((array 32).decode >>= λ hash. pure (spark_tx hash))
      else if flag == 2
      then ((array 32).decode >>= λ hash. pure (spark_signatures hash))
      else if flag == 3
      then (decode_freeze btc secp sigs >>= λ freeze. pure (spark_freeze freeze))
      else fail (parse_failed "Unknown inventory type")

  abbrev pub inventory_codec : Codec Item
  inventory_codec = record { encode = encode_inventory; decode = decode_inventory }

  -- The ranges of the field types.
  abbrev pub IsItem : Item → Type 0
  IsItem (ltx txid) = length txid ≡ 32
  IsItem (spark_tx hash) = length hash ≡ 32
  IsItem (spark_signatures hash) = length hash ≡ 32
  IsItem (spark_freeze freeze) = freeze.timestamp < 2 ^ 64

  inventory_lem : RoundTrips inventory_codec IsItem
  unfolding encode_inventory decode_inventory
  inventory_lem (ltx txid) v rest = simp (append_assoc, u8_lem 0 (omega arith), array_lem 32 txid v)
  inventory_lem (spark_tx hash) v rest =
      simp (append_assoc, u8_lem 1 (omega arith), array_lem 32 hash v)
  inventory_lem (spark_signatures hash) v rest =
      simp (append_assoc, u8_lem 2 (omega arith), array_lem 32 hash v)
  inventory_lem (spark_freeze freeze) v rest =
      simp (append_assoc, u8_lem 3 (omega arith), freeze_lem btc secp sigs freeze v)

  -- An inventory of fewer than 2^32 items, with fields in the ranges of their types, is read back
  -- from its wire form, and what follows is left.
  pub inventories_lem :
      (items : List Item)
      → All IsItem items
      → length items < 2 ^ 32
      → (rest : List ℕ)
      → decode_vec btc inventory_codec (encode_vec btc inventory_codec items ++ rest)
        ≡ ok (items, rest)
  inventories_lem items v small rest =
      vec_wrapper_lem btc inventory_codec IsItem inventory_lem items (v, small) rest
