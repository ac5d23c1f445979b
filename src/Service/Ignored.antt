-- ===== src/Service/Ignored.antt =====
-- What the check of a transfer of Spark asks and does not use.
use lrc.Common.{
  ap, ℕ, ◌≡◌, Bool, false, ◌&&◌, if◌then◌else◌, List, [], ◌∷◌, Option, none, some, refl,
}
use std.Path.{fun_ext}
use lrc.Outcome.{ok, err, ◌>>=◌}
use lrc.Keys.{KeyEq}
use lrc.Tables.{contains}
use lrc.Spark.{TokenTransaction, TokenLeafOutput, TokenLeafToSpend}
use lrc.Service.{SparkStorage, SparkBatch}
use lrc.Service.Sums.{check_spark_conservation_rules}
use lrc.Service.Transfers.{
  check_spent_output, check_spent_outputs, check_new_leaves, check_spark_transfer, is_taken,
  add_leaf,
}

-- The storage with other answers about spent outputs.
abbrev pub answering : {K G : Type 0} → SparkStorage K G → (List ℕ → ℕ → Bool) → SparkStorage K G
answering storage spent = record storage { get_spent_output = λ id vout. some (spent id vout) }

module _ {K G A X : Type 0} (keys : KeyEq K) (bytes : KeyEq (List ℕ)) (peers : KeyEq A)
    (hash : TokenTransaction K G → List ℕ) (storage : SparkStorage K G)
    (spent spent' : List ℕ → ℕ → Bool) where
  check_spent_outputs_ignores_spent :
      (tx : TokenTransaction K G) (sender : Option A)
      (checked_txs : List (List ℕ × TokenTransaction K G)) (now : ℕ)
      (outputs : List TokenLeafToSpend) (b : SparkBatch K G A X)
      → check_spent_outputs keys bytes peers hash
          (answering storage spent)
          tx
          sender
          checked_txs
          now
          outputs
          b
        ≡ check_spent_outputs keys bytes peers hash
            (answering storage spent')
            tx
            sender
            checked_txs
            now
            outputs
            b
  unfolding check_spent_outputs check_spent_output
  check_spent_outputs_ignores_spent tx sender checked_txs now [] b = refl
  check_spent_outputs_ignores_spent tx sender checked_txs now (o ∷ outputs) b =
      ap
        (λ next.
          check_spent_output keys bytes peers hash (answering storage spent) tx sender checked_txs
            now o b
          >>= λ r. elim r.0 [
            | none ↦ ok (none, r.1)
            | some found ↦ next r.1 >>= λ q. ok (add_leaf keys bytes peers hash found q.0, q.1)
          ])
        (fun_ext (check_spent_outputs_ignores_spent tx sender checked_txs now outputs))

  check_new_leaves_ignores_spent :
      (tx_hash : List ℕ) (leaves : List (TokenLeafOutput K)) (b : SparkBatch K G A X)
      → check_new_leaves keys bytes peers hash (answering storage spent) tx_hash leaves b
        ≡ check_new_leaves keys bytes peers hash (answering storage spent') tx_hash leaves b
  unfolding check_new_leaves
  check_new_leaves_ignores_spent tx_hash [] b = refl
  check_new_leaves_ignores_spent tx_hash (leaf ∷ leaves) b =
      ap
        (λ rest.
          if contains bytes leaf.id b.new_leaves
          then ok (false, b)
          else elim (storage.get_spark_output_model leaf.id) [
            | none ↦ err b
            | some stored ↦
                if is_taken keys bytes peers hash tx_hash stored then ok (false, b) else rest
          ])
        (check_new_leaves_ignores_spent tx_hash leaves
          (record b { new_leaves = leaf.id ∷ b.new_leaves }))

  -- Whether the storage knows an output as spent makes no difference to the check of a transfer, where
  -- that query does not fail: neither to its result nor to the batch.
  pub check_spark_transfer_ignores_spent :
      (tx : TokenTransaction K G) (sender : Option A)
      (checked_txs : List (List ℕ × TokenTransaction K G)) (now : ℕ)
      (outputs : List TokenLeafToSpend) (b : SparkBatch K G A X)
      → check_spark_transfer keys bytes peers hash
          (answering storage spent)
          tx
          sender
          checked_txs
          now
          outputs
          b
        ≡ check_spark_transfer keys bytes peers hash
            (answering storage spent')
            tx
            sender
            checked_txs
            now
            outputs
            b
  unfolding check_spark_transfer
  check_spark_transfer_ignores_spent tx sender checked_txs now outputs b =
      rw (check_spent_outputs_ignores_spent tx sender checked_txs now outputs b) (
        ap
          (λ news.
            check_spent_outputs keys bytes peers hash (answering storage spent') tx sender
              checked_txs now outputs b
            >>= λ r. elim r.0 [
              | none ↦ ok (false, r.1)
              | some leaves ↦ news r.1 >>= λ q.
                  ok (q.0 && check_spark_conservation_rules keys leaves tx.leaves_to_create, q.1)
            ])
          (fun_ext (check_new_leaves_ignores_spent (hash tx) tx.leaves_to_create)))
