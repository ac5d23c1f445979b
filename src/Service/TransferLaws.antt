-- ===== src/Service/TransferLaws.antt =====
-- What an accepted transfer of Spark has.
use lrc.Common.{
  ℕ, ◌≡◌, true, false, ◌&&◌, List, [], ◌∷◌, Option, some, arith, inl, inr, Bool-cases, Option-cases,
  subst,
}
use lrc.Outcome.{ok, >>=-eq-ok}
use lrc.Keys.{KeyEq}
use lrc.Tables.{contains}
use lrc.Spark.{TokenTransaction, TokenLeafOutput, TokenLeafToSpend}
use lrc.Service.{SparkStorage, SparkBatch}
use lrc.Service.Sums.{check_spark_conservation_rules}
use lrc.Service.Transfers.{check_spent_outputs, check_new_leaves, check_spark_transfer, is_taken}
use lrc.Service.Inputs.{Inputs, check_spent_outputs-Inputs, check_spent_outputs_new_leaves}

module _ {K G A : Type 0} (keys : KeyEq K) (bytes : KeyEq (List ℕ)) (peers : KeyEq A)
    (hash : TokenTransaction K G → List ℕ) (storage : SparkStorage K G) where
  -- The ids of the new leaves are new in the batch, and no other transaction has them.
  abbrev pub NewIds : List ℕ → List (TokenLeafOutput K) → List (List ℕ) → Type 0
  NewIds tx_hash [] ids = Unit
  NewIds tx_hash (leaf ∷ leaves) ids =
      (contains bytes leaf.id ids ≡ false)
      × ((stored : Option (List ℕ)) × (storage.get_spark_output_model leaf.id ≡ some stored)
          × (is_taken keys bytes peers hash tx_hash stored ≡ false))
      × NewIds tx_hash leaves (leaf.id ∷ ids)

  check_new_leaves-NewIds :
      {X : Type 0} (tx_hash : List ℕ) (leaves : List (TokenLeafOutput K))
      (b b' : SparkBatch K G A X)
      → check_new_leaves keys bytes peers hash storage tx_hash leaves b ≡ ok (true, b')
      → NewIds tx_hash leaves b.new_leaves
  unfolding check_new_leaves
  check_new_leaves-NewIds tx_hash [] b b' e = tt
  check_new_leaves-NewIds tx_hash (leaf ∷ leaves) b b' e =
      elim (Bool-cases (contains bytes leaf.id b.new_leaves)) [
        | inl twice ↦ absurd (ground (arith, e))
        | inr fresh ↦ elim (Option-cases (storage.get_spark_output_model leaf.id)) [
          | inl failed ↦ absurd (ground (arith, e))
          | inr (stored, asked) ↦
              elim (Bool-cases (is_taken keys bytes peers hash tx_hash stored)) [
                | inl taken ↦ absurd (ground (arith, e))
                | inr free ↦ (
                  fresh,
                  (stored, asked, free),
                  check_new_leaves-NewIds tx_hash leaves
                      (record b { new_leaves = leaf.id ∷ b.new_leaves }) b' (ground (arith, e)),
                )
              ]
        ]
      ]

  -- Where a transfer of Spark is accepted, there is a leaf for each output it spends, that is of a
  -- known transaction with the same operators and not frozen; no output is spent twice, in the
  -- transfer or in the transfers of the batch before; the conservation rule accepts these leaves and
  -- the new ones; and the ids of the new leaves are new in the batch and of no other transaction.
  pub check_spark_transfer_sound :
      {X : Type 0} (tx : TokenTransaction K G) (sender : Option A)
      (checked_txs : List (List ℕ × TokenTransaction K G)) (now : ℕ)
      (outputs : List TokenLeafToSpend) (b b' : SparkBatch K G A X)
      → check_spark_transfer keys bytes peers hash storage tx sender checked_txs now outputs b
        ≡ ok (true, b')
      → (leaves : List (TokenLeafOutput K)) × Inputs keys bytes peers hash storage tx checked_txs
          outputs leaves b.spent_leaves
        × (check_spark_conservation_rules keys leaves tx.leaves_to_create ≡ true)
        × NewIds (hash tx) tx.leaves_to_create b.new_leaves
  unfolding check_spark_transfer
  check_spark_transfer_sound tx sender checked_txs now outputs b b' e =
      let ((found, b1), checked, e') =
        >>=-eq-ok
          (check_spent_outputs keys bytes peers hash storage tx sender checked_txs now outputs b) _
          e in
      elim (Option-cases found) [
        | inl refused ↦ absurd (ground (arith, e', refused))
        | inr (leaves, there) ↦
            let ((are_new, b2), news, e'') =
              >>=-eq-ok
                (check_new_leaves keys bytes peers hash storage (hash tx) tx.leaves_to_create b1)
                (λ r.
                  ok (r.0 && check_spark_conservation_rules keys leaves tx.leaves_to_create, r.1))
                (rw there at e') in
            (
              leaves,
              check_spent_outputs-Inputs keys bytes peers hash storage tx sender checked_txs now
                  outputs b b1 leaves (ground (arith, checked, there)),
              ground (arith, e''),
              subst (NewIds (hash tx) tx.leaves_to_create)
                  (check_spent_outputs_new_leaves keys bytes peers hash storage tx sender
                    checked_txs now outputs b b1 leaves (ground (arith, checked, there)))
                  (check_new_leaves-NewIds (hash tx) tx.leaves_to_create b1 b2
                    (ground (arith, news, e''))),
            )
      ]
