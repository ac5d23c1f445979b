-- ===== src/Service/Transfers.antt =====
-- `check_spark_transfer` of crates/tx-check/src/service.rs. `hash` is the hash of a token transaction.
use lrc.Common.{
  ℕ, ◌==◌, Bool, true, false, not, ◌&&◌, ◌||◌, if◌then◌else◌, List, [], ◌∷◌, ◌++◌, Option, none,
  some, get_elem?,
}
use lrc.Outcome.{Result, ok, err, ◌>>=◌}
use lrc.Keys.{KeyEq}
use lrc.Tables.{contains, get, put, or_empty}
use lrc.Spark.{TokenTransaction, TokenLeafOutput, TokenLeafToSpend}
use lrc.Service.{SparkStorage, SparkBatch, token_tx}
use lrc.Service.Sums.{check_spark_conservation_rules}

-- `==` of the lists of operators' keys
unfoldable pub same_keys : {K : Type 0} → KeyEq K → List K → List K → Bool
same_keys keys [] [] = true
same_keys keys [] (k ∷ ks) = false
same_keys keys (j ∷ js) [] = false
same_keys keys (j ∷ js) (k ∷ ks) = keys.same j k && same_keys keys js ks

module _ {K G A : Type 0} (keys : KeyEq K) (bytes : KeyEq (List ℕ)) (peers : KeyEq A)
    (hash : TokenTransaction K G → List ℕ) where
  -- `spent_leaves.contains`
  unfoldable pub is_spent : TokenLeafToSpend → List (List ℕ × ℕ) → Bool
  is_spent o [] = false
  is_spent o ((id, vout) ∷ spent) =
      (bytes.same id o.parent_output_hash && (vout == o.parent_output_vout)) || is_spent o spent

  -- The parent that the storage has, or else the batch.
  abbrev pub parent_of :
      Option (TokenTransaction K G)
      → List (List ℕ × TokenTransaction K G)
      → List ℕ
      → Option (TokenTransaction K G)
  parent_of (some tx) checked_txs id = some tx
  parent_of none checked_txs id = get bytes id checked_txs

  -- Where no parent is found it is asked for, and the transaction waits for it.
  unfoldable pub wait_for_parent :
      {X : Type 0}
      → TokenTransaction K G
      → Option A
      → ℕ
      → List ℕ
      → SparkBatch K G A X
      → SparkBatch K G A X
  wait_for_parent tx sender now id b = record b {
    not_found_parents = elim sender [
      | none ↦ b.not_found_parents
      | some peer ↦
          put peers peer (or_empty (get peers peer b.not_found_parents) ++ (id ∷ []))
            b.not_found_parents
    ];
    spark_queue = put bytes id (token_tx tx, now) b.spark_queue;
  }

  abbrev pub frozen : Option Bool → Bool
  frozen none = false
  frozen (some b) = b

  -- The leaf that is spent, where the parent has it and it may be spent.
  unfoldable pub spendable_leaf :
      TokenTransaction K G → TokenTransaction K G → ℕ → Option (TokenLeafOutput K)
  spendable_leaf tx parent_tx vout =
      if same_keys keys tx.spark_operator_identity_public_keys
        parent_tx.spark_operator_identity_public_keys
      then elim (get_elem? parent_tx.leaves_to_create vout) [
        | none ↦ none
        | some leaf ↦ if frozen leaf.is_frozen then none else some leaf
      ]
      else none

  abbrev pub add_leaf :
      TokenLeafOutput K → Option (List (TokenLeafOutput K)) → Option (List (TokenLeafOutput K))
  add_leaf leaf none = none
  add_leaf leaf (some leaves) = some (leaf ∷ leaves)

  -- Whether another transaction has a leaf with that id.
  abbrev pub is_taken : List ℕ → Option (List ℕ) → Bool
  is_taken tx_hash none = false
  is_taken tx_hash (some stored) = not (bytes.same stored tx_hash)

module _ {K G A : Type 0} (keys : KeyEq K) (bytes : KeyEq (List ℕ)) (peers : KeyEq A)
    (hash : TokenTransaction K G → List ℕ) (storage : SparkStorage K G) where
  -- The body of the loop over the spent outputs; no leaf is `return Ok(false)`.
  unfoldable pub check_spent_output :
      {X : Type 0}
      → TokenTransaction K G
      → Option A
      → List (List ℕ × TokenTransaction K G)
      → ℕ
      → TokenLeafToSpend
      → SparkBatch K G A X
      → Result (SparkBatch K G A X) (Option (TokenLeafOutput K) × SparkBatch K G A X)
  check_spent_output tx sender checked_txs now o b =
      if is_spent keys bytes peers hash o b.spent_leaves
      then ok (none, b)
      else elim (storage.get_spark_tx_with_outputs o.parent_output_hash) [
        | none ↦ err b
        | some found ↦
            elim (parent_of keys bytes peers hash found checked_txs o.parent_output_hash) [
              | none ↦
                  ok (
                    none,
                    wait_for_parent keys bytes peers hash tx sender now o.parent_output_hash b,
                  )
              | some parent_tx ↦
                  elim (spendable_leaf keys bytes peers hash tx parent_tx o.parent_output_vout) [
                    | none ↦ ok (none, b)
                    | some leaf ↦
                        elim (storage.get_spent_output o.parent_output_hash o.parent_output_vout) [
                          | none ↦ err b
                          | some spent_leaf ↦ ok (
                            some leaf,
                            record b {
                              spent_leaves =
                                  (o.parent_output_hash, o.parent_output_vout) ∷ b.spent_leaves;
                            },
                          )
                        ]
                  ]
            ]
      ]

  -- The loop over the spent outputs, with `input_leaves`.
  unfoldable pub check_spent_outputs :
      {X : Type 0}
      → TokenTransaction K G
      → Option A
      → List (List ℕ × TokenTransaction K G)
      → ℕ
      → List TokenLeafToSpend
      → SparkBatch K G A X
      → Result (SparkBatch K G A X) (Option (List (TokenLeafOutput K)) × SparkBatch K G A X)
  check_spent_outputs tx sender checked_txs now [] b = ok (some [], b)
  check_spent_outputs tx sender checked_txs now (o ∷ outputs) b = do
    (leaf, b') ← check_spent_output tx sender checked_txs now o b
    elim leaf [
      | none ↦ ok (none, b')
      | some found ↦ do
        (leaves, b'') ← check_spent_outputs tx sender checked_txs now outputs b'
        ok (add_leaf keys bytes peers hash found leaves, b'')
    ]

  -- The loop over the new leaves.
  unfoldable pub check_new_leaves :
      {X : Type 0}
      → List ℕ
      → List (TokenLeafOutput K)
      → SparkBatch K G A X
      → Result (SparkBatch K G A X) (Bool × SparkBatch K G A X)
  check_new_leaves tx_hash [] b = ok (true, b)
  check_new_leaves tx_hash (leaf ∷ leaves) b =
      let rest =
        check_new_leaves tx_hash leaves (record b { new_leaves = leaf.id ∷ b.new_leaves }) in
      if contains bytes leaf.id b.new_leaves
      then ok (false, b)
      else elim (storage.get_spark_output_model leaf.id) [
        | none ↦ err b
        | some stored ↦
            if is_taken keys bytes peers hash tx_hash stored then ok (false, b) else rest
      ]

  unfoldable pub check_spark_transfer :
      {X : Type 0}
      → TokenTransaction K G
      → Option A
      → List (List ℕ × TokenTransaction K G)
      → ℕ
      → List TokenLeafToSpend
      → SparkBatch K G A X
      → Result (SparkBatch K G A X) (Bool × SparkBatch K G A X)
  check_spark_transfer tx sender checked_txs now outputs_to_spend b = do
    (input_leaves, b') ← check_spent_outputs tx sender checked_txs now outputs_to_spend b
    elim input_leaves [
      | none ↦ ok (false, b')
      | some leaves ↦ do
        (are_new, b'') ← check_new_leaves (hash tx) tx.leaves_to_create b'
        ok (are_new && check_spark_conservation_rules keys leaves tx.leaves_to_create, b'')
    ]
