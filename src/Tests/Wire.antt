-- ===== src/Tests/Wire.antt =====
-- Wire forms at concrete values.
use lrc.Consensus.Inventory.{Item, inventory_codec, inventories_lem, spark_tx, spark_freeze}
use lrc.Codec.{parse_failed}
use lrc.Consensus.TransactionLaws.{batch_behind_announcement}
use lrc.Spark.TransactionLaws.{token_transaction_lem, owner_signature_refused, IsTokenTransaction}
use lrc.Spark.Transactions.{
  encode_token_transaction, decode_token_transaction, encode_owner_signature,
  decode_owner_signature, Signature,
}
use lrc.Spark.{TokenTransactionInput, TokenTransaction, TokensFreezeData, ecdsa, schnorr}
use lrc.Common.{ℕ, ◌++◌, ◌≡◌, ◌≢◌, List, [], ◌∷◌, some, replicate, refl, arith, length, true, none}
use lrc.Outcome.{ok, err}
use lrc.Codec.Bytes.{read_exact, is_utf8}
use lrc.Receipt.{Receipt, receipt_from_bytes, receipt_to_bytes}
use lrc.Receipt.Laws.{receipt_from_bytes-receipt_to_bytes}
use lrc.Proof.{ReceiptProof, sig}
use lrc.Proof.Wire.{encode_proof, decode_proof, receipt_proof_codec}
use lrc.Proof.WireLaws.{IsProof, receipt_proof_codec_lem}
use lrc.Transaction.{Lrc20Transaction, transfer, announcement}
use lrc.Consensus.Wrappers.{encode_vec, decode_vec}
use lrc.Consensus.Transactions.{encode_transaction, decode_transaction, transaction_codec}
use lrc.Consensus.RoundTrips.{IsLrc20Transaction, lrc20_transaction_lem, lrc20_txs_lem}
use lrc.Samples.{secp, btc, json, tx_codec, tx_codec_lem, sigs}
use lrc.Announcements.Message

abbrev receipt5 : Receipt ℕ
receipt5 = record {
  token_amount = record { amount = 5; blinding_factor = replicate 16 0 };
  token_pubkey = 7;
}

receipt_example : receipt_from_bytes secp (receipt_to_bytes secp receipt5) ≡ ok receipt5
receipt_example =
    receipt_from_bytes-receipt_to_bytes secp receipt5
      (record { amount_u128 = omega arith; blinding_size = refl })

abbrev proof5 : ReceiptProof ℕ ℕ
proof5 = sig (record { receipt = receipt5; inner_key = 9; metadata = some 3 })

proof5-IsProof : IsProof btc secp json proof5
proof5-IsProof = record {
  receipt = record { amount_u128 = omega arith; blinding_size = refl };
  metadata = (omega arith, refl);
}

proof_example :
    decode_proof btc secp json (encode_proof btc secp json proof5 ++ (9 ∷ [])) ≡ ok (proof5, 9 ∷ [])
proof_example = receipt_proof_codec_lem btc secp json proof5 proof5-IsProof (9 ∷ [])

abbrev transfer5 : Lrc20Transaction (List ℕ) ℕ (ReceiptProof ℕ ℕ)
transfer5 = record {
  bitcoin_tx = 1 ∷ 2 ∷ [];
  tx_type = transfer ((0, proof5) ∷ []) ((1, proof5) ∷ []);
}

transfer5-IsLrc20Transaction :
    IsLrc20Transaction btc secp json tx_codec (λ t. length t ≡ 2) tx_codec_lem transfer5
transfer5-IsLrc20Transaction = (
  refl,
  (
    record {
      sorted = (omega arith, tt);
      keys = (omega arith, tt);
      vals = (proof5-IsProof, tt);
      size = omega arith;
    },
    record {
      sorted = (omega arith, tt);
      keys = (omega arith, tt);
      vals = (proof5-IsProof, tt);
      size = omega arith;
    },
  ),
)

transaction_example :
    decode_transaction btc secp tx_codec (receipt_proof_codec btc secp json) (
      encode_transaction btc secp tx_codec (receipt_proof_codec btc secp json) transfer5
      ++ (9 ∷ []))
    ≡ ok (transfer5, 9 ∷ [])
transaction_example =
    lrc20_transaction_lem btc secp json tx_codec (λ t. length t ≡ 2) tx_codec_lem transfer5
      transfer5-IsLrc20Transaction (9 ∷ [])

transactions_example :
    decode_vec btc (transaction_codec btc secp tx_codec (receipt_proof_codec btc secp json)) (
      encode_vec btc
        (transaction_codec btc secp tx_codec (receipt_proof_codec btc secp json))
        (transfer5 ∷ [])
      ++ (9 ∷ []))
    ≡ ok (transfer5 ∷ [], 9 ∷ [])
transactions_example =
    lrc20_txs_lem btc secp json tx_codec (λ t. length t ≡ 2) tx_codec_lem (transfer5 ∷ [])
      (transfer5-IsLrc20Transaction, tt) (omega arith) (9 ∷ [])

needs_bytes : (x : List ℕ) (rest : List ℕ) → tx_codec.decode [] ≢ ok (x, rest)
unfolding read_exact
needs_bytes x rest e = cc

abbrev issue_tx : Lrc20Transaction (List ℕ) ℕ (ReceiptProof ℕ ℕ)
issue_tx = record {
  bitcoin_tx = 3 ∷ 4 ∷ [];
  tx_type = announcement (Message.Announcement.issue (record { token_pubkey = 7; amount = 5 }));
}

batch_example :
    decode_vec btc (transaction_codec btc secp tx_codec (receipt_proof_codec btc secp json)) (
      encode_vec btc
        (transaction_codec btc secp tx_codec (receipt_proof_codec btc secp json))
        (transfer5 ∷ issue_tx ∷ transfer5 ∷ []))
    ≢ ok (transfer5 ∷ issue_tx ∷ transfer5 ∷ [], [])
batch_example =
    batch_behind_announcement btc secp tx_codec (receipt_proof_codec btc secp json)
      (λ t. length t ≡ 2) tx_codec_lem (IsProof btc secp json)
      (receipt_proof_codec_lem btc secp json) needs_bytes (transfer5 ∷ []) (3 ∷ 4 ∷ [])
      (Message.Announcement.issue (record { token_pubkey = 7; amount = 5 })) transfer5 []
      (transfer5 ∷ issue_tx ∷ transfer5 ∷ []) [] (transfer5-IsLrc20Transaction, tt) refl
      (omega arith)

abbrev by_schnorr : Signature btc secp sigs
by_schnorr = schnorr 4

abbrev token_tx : TokenTransaction ℕ (Signature btc secp sigs)
token_tx = record {
  input =
      TokenTransactionInput.transfer
        (record { parent_output_hash = replicate 32 1; parent_output_vout = 2 } ∷ []);
  leaves_to_create =
      record {
        id = 0x61 ∷ [];
        owner_public_key = 7;
        revocation_public_key = 8;
        withdrawal_bond_sats = 100;
        withdrawal_locktime = 10;
        receipt = receipt5;
        is_frozen = some true;
        withdraw_txid = none;
        withdraw_tx_vout = some 1;
        withdraw_height = none;
        withdraw_block_hash = some (replicate 32 3);
      }
      ∷ [];
  spark_operator_identity_public_keys = 5 ∷ 6 ∷ [];
  network = some 1;
}

a_is_utf8 : is_utf8 (0x61 ∷ []) ≡ true
unfolding is_utf8
a_is_utf8 = refl

token_tx-IsTokenTransaction : IsTokenTransaction btc secp sigs token_tx
token_tx-IsTokenTransaction = record {
  input = (((refl, omega arith), tt), omega arith);
  leaves = (
    record {
      id = a_is_utf8;
      id_size = omega arith;
      receipt = record { amount_u128 = omega arith; blinding_size = refl };
      bond = omega arith;
      locktime = omega arith;
      txid = tt;
      vout = omega arith;
      height = tt;
      block_hash = refl;
    },
    tt,
  );
  leaves_count = omega arith;
  keys_count = omega arith;
  network = omega arith;
}

token_transaction_example :
    decode_token_transaction btc secp sigs
      (encode_token_transaction btc secp sigs token_tx ++ (9 ∷ []))
    ≡ ok (token_tx, 9 ∷ [])
token_transaction_example =
    token_transaction_lem btc secp sigs token_tx token_tx-IsTokenTransaction (9 ∷ [])

abbrev freeze : TokensFreezeData ℕ (Signature btc secp sigs)
freeze = record {
  operator_identity_public_key = 5;
  owner_public_key = 6;
  token_public_key = 7;
  should_unfreeze = true;
  issuer_signature = by_schnorr;
  timestamp = 1700000000;
}

owner_example :
    decode_owner_signature btc secp sigs (
      encode_owner_signature btc secp sigs (record {
        operator_identity_public_key = some 5;
        owner_signature = ecdsa 4;
        input_index = none;
      })
      ++ (9 ∷ []))
    ≡ err (parse_failed "Unsupported token transaction input")
owner_example = owner_signature_refused btc secp sigs (some 5) 4 none (9 ∷ [])

abbrev items : List (Item btc secp sigs)
items = spark_tx (replicate 32 1) ∷ spark_freeze freeze ∷ []

inventories_example :
    decode_vec btc
      (inventory_codec btc secp sigs)
      (encode_vec btc (inventory_codec btc secp sigs) items ++ (9 ∷ []))
    ≡ ok (items, 9 ∷ [])
inventories_example =
    inventories_lem btc secp sigs items (refl, (omega arith, tt)) (omega arith) (9 ∷ [])
