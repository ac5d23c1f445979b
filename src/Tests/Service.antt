-- ===== src/Tests/Service.antt =====
-- The checks of Spark against the storage, at concrete values.
use lrc.Common.{
  ◌==◌, All, Option, Bool, if◌then◌else◌, ℕ, ◌≡◌, ◌^◌, true, false, List, [], ◌∷◌, none, some, refl,
  arith, ◌↔◌, bytes_eq, bytes_eq_refl, bytes_eq→eq,
}
use lrc.Keys.{KeyEq}
use lrc.Outcome.{ok}
use lrc.Samples.{keys}
use lrc.Spark.{
  TokenTransaction, TokenTransactionInput, TokenLeafOutput, TokenLeafToSpend, SparkSignatureData,
  SparkSignatureLeafData, OperatorSpecificOwnerSignature,
}
use lrc.Tables.{contains}
use lrc.Checks.Amounts.{add_to, checked_add, same_sums, included, get}
use lrc.Service.{SparkStorage, SparkBatch}
use lrc.Service.Sums.{check_spark_conservation_rules, sum_leaves, same_option}
use lrc.Service.SumLaws.{
  leaf_total, check_spark_conservation_rules_lem, check_spark_conservation_rules_overflow,
}
use lrc.Service.Transfers.{
  same_keys, is_spent, spendable_leaf, check_spent_output, check_spent_outputs, check_new_leaves,
  check_spark_transfer,
}
use lrc.Service.Inputs.{Inputs}
use lrc.Service.TransferLaws.{NewIds, check_spark_transfer_sound}
use lrc.Service.Finalization.{
  finalized, signing_operators, revocation_secrets, check_spark_tx_finalization,
}
use lrc.Service.FinalizationLaws.{HasDistinct, check_spark_tx_finalization_lem}
use lrc.Service.Issues.{may_issue, check_issued_leaf, check_issued_leaves, check_spark_issue}
use lrc.Service.IssueLaws.{IsIssuedBy, check_spark_issue_sound}
use lrc.Service.Ignored.{answering, check_spark_transfer_ignores_spent}

abbrev bytes : KeyEq (List ℕ)
bytes = record { same = bytes_eq; same_refl = bytes_eq_refl; same→eq = bytes_eq→eq }

abbrev leaf_of : ℕ → ℕ → ℕ → TokenLeafOutput ℕ
leaf_of id token amount = record {
  id = id ∷ [];
  owner_public_key = 1;
  revocation_public_key = 2;
  withdrawal_bond_sats = 10000;
  withdrawal_locktime = 1000;
  receipt = record {
    token_amount = record { amount = amount; blinding_factor = [] };
    token_pubkey = token;
  };
  is_frozen = none;
  withdraw_txid = none;
  withdraw_tx_vout = none;
  withdraw_height = none;
  withdraw_block_hash = none;
}

-- One leaf of 5 becomes two, of 2 and 3.
check_spark_conservation_rules_lem_example :
    (check_spark_conservation_rules keys (leaf_of 1 7 5 ∷ []) (leaf_of 2 7 2 ∷ leaf_of 3 7 3 ∷ [])
      ≡ true)
    ↔ ((k : ℕ)
        → leaf_total keys k (leaf_of 1 7 5 ∷ [])
          ≡ leaf_total keys k (leaf_of 2 7 2 ∷ leaf_of 3 7 3 ∷ []))
unfolding leaf_total
check_spark_conservation_rules_lem_example =
    check_spark_conservation_rules_lem keys (leaf_of 1 7 5 ∷ [])
      (leaf_of 2 7 2 ∷ leaf_of 3 7 3 ∷ []) (omega arith, tt) (omega arith, (omega arith, tt))
      (λ k. ground arith)

check_spark_conservation_rules_overflow_example :
    check_spark_conservation_rules keys
      (leaf_of 1 7 (2 ^ 127) ∷ leaf_of 2 7 (2 ^ 127) ∷ [])
      (leaf_of 3 8 (2 ^ 127) ∷ leaf_of 4 8 (2 ^ 127) ∷ [])
    ≡ true
unfolding leaf_total
check_spark_conservation_rules_overflow_example =
    check_spark_conservation_rules_overflow keys
      (leaf_of 1 7 (2 ^ 127) ∷ leaf_of 2 7 (2 ^ 127) ∷ [])
      (leaf_of 3 8 (2 ^ 127) ∷ leaf_of 4 8 (2 ^ 127) ∷ []) 7 8 (ground arith) (ground arith)

abbrev tx_of : List TokenLeafToSpend → List (TokenLeafOutput ℕ) → TokenTransaction ℕ ℕ
tx_of outputs leaves = record {
  input = TokenTransactionInput.transfer outputs;
  leaves_to_create = leaves;
  spark_operator_identity_public_keys = 4 ∷ [];
  network = none;
}

-- The hash of a transaction stands for its first leaf.
abbrev hash : TokenTransaction ℕ ℕ → List ℕ
hash tx = elim tx.leaves_to_create [ [] ↦ [] | leaf ∷ leaves ↦ 99 ∷ leaf.id ]

abbrev parent : TokenTransaction ℕ ℕ
parent = tx_of [] (leaf_of 1 7 5 ∷ [])

abbrev outputs : List TokenLeafToSpend
outputs = record { parent_output_hash = 99 ∷ 1 ∷ []; parent_output_vout = 0 } ∷ []

abbrev spending : TokenTransaction ℕ ℕ
spending = tx_of outputs (leaf_of 2 7 2 ∷ leaf_of 3 7 3 ∷ [])

-- A storage that knows the parent only.
abbrev storage : SparkStorage ℕ ℕ
storage = record {
  get_spark_tx_with_outputs = λ id. some (if bytes_eq id (99 ∷ 1 ∷ []) then some parent else none);
  get_spent_output = λ id vout. some false;
  get_spark_output_model = λ id. some none;
}

abbrev empty_batch : SparkBatch ℕ ℕ ℕ ℕ
empty_batch = record {
  spent_leaves = [];
  new_leaves = [];
  not_found_parents = [];
  spark_queue = [];
}

abbrev batch : SparkBatch ℕ ℕ ℕ ℕ
batch = record empty_batch {
  spent_leaves = (99 ∷ 1 ∷ [], 0) ∷ [];
  new_leaves = (3 ∷ []) ∷ (2 ∷ []) ∷ [];
}

accepted :
    check_spark_transfer keys bytes keys hash storage spending none [] 0 outputs empty_batch
    ≡ ok (true, batch)
unfolding check_spark_transfer check_spent_outputs check_spent_output check_new_leaves
    spendable_leaf is_spent same_keys bytes_eq check_spark_conservation_rules sum_leaves same_option
    contains add_to checked_add same_sums included get
accepted = refl

check_spark_transfer_sound_example :
    (leaves : List (TokenLeafOutput ℕ)) × Inputs keys bytes keys hash storage spending [] outputs
      leaves []
    × (check_spark_conservation_rules keys leaves spending.leaves_to_create ≡ true)
    × NewIds keys bytes keys hash storage (hash spending) spending.leaves_to_create []
check_spark_transfer_sound_example =
    check_spark_transfer_sound keys bytes keys hash storage spending none [] 0 outputs empty_batch
      batch accepted

-- The second storage knows every output as spent.
check_spark_transfer_ignores_spent_example :
    check_spark_transfer keys bytes keys hash
      (answering storage (λ id vout. false))
      spending
      none
      []
      0
      outputs
      empty_batch
    ≡ check_spark_transfer keys bytes keys hash
        (answering storage (λ id vout. true))
        spending
        none
        []
        0
        outputs
        empty_batch
check_spark_transfer_ignores_spent_example =
    check_spark_transfer_ignores_spent keys bytes keys hash storage (λ id vout. false)
      (λ id vout. true) spending none [] 0 outputs empty_batch

abbrev signed_by : ℕ → SparkSignatureData ℕ ℕ ℕ
signed_by operator = record {
  operator_specific_owner_signature = none;
  operator_pubkey = operator;
  operator_signature = 0;
  token_tx_hash = [];
  outputs_to_spend_data = [];
}

abbrev revealed : ℕ → SparkSignatureLeafData ℕ
revealed secret = record { token_tx_leaf_index = 0; revocation_secret = some secret }

abbrev signatures : List (SparkSignatureData ℕ ℕ ℕ)
signatures = signed_by 1 ∷ signed_by 2 ∷ signed_by 1 ∷ signed_by 3 ∷ []

check_spark_tx_finalization_lem_example :
    (check_spark_tx_finalization keys keys 1 signatures (revealed 8 ∷ []) ≡ finalized) ↔ (
      HasDistinct keys 3 (signing_operators signatures)
      × HasDistinct keys 1 (revocation_secrets (revealed 8 ∷ [])))
check_spark_tx_finalization_lem_example =
    check_spark_tx_finalization_lem keys keys 1 signatures (revealed 8 ∷ [])

-- The issuer's signature is the issuer's key.
abbrev verify : ℕ → ℕ → List ℕ → Option ℕ → Bool
verify signature issuer message operator = signature == issuer

abbrev issuer_signature : OperatorSpecificOwnerSignature ℕ ℕ
issuer_signature = record {
  operator_identity_public_key = none;
  owner_signature = 7;
  input_index = none;
}

issued :
    check_spark_issue keys bytes keys hash hash verify storage
      (λ k. some none)
      false
      spending
      7
      (some issuer_signature)
      []
    ≡ ok (true, (3 ∷ []) ∷ (2 ∷ []) ∷ [])
unfolding check_spark_issue check_issued_leaves check_issued_leaf may_issue contains bytes_eq
issued = refl

check_spark_issue_sound_example :
    (s : OperatorSpecificOwnerSignature ℕ ℕ) × (some issuer_signature ≡ some s)
    × (verify s.owner_signature 7 (hash spending) s.operator_identity_public_key ≡ true)
    × NewIds keys bytes keys hash storage (hash spending) spending.leaves_to_create []
    × All
        (IsIssuedBy keys bytes keys hash hash verify storage (λ k. some none) false 7)
        spending.leaves_to_create
check_spark_issue_sound_example =
    check_spark_issue_sound keys bytes keys hash hash verify storage (λ k. some none) false spending
      7 (some issuer_signature) [] ((3 ∷ []) ∷ (2 ∷ []) ∷ []) issued
