-- ===== src/Service/Inputs.antt =====
-- What the loop over the outputs that a transfer of Spark spends has checked.
use lrc.Common.{
  ◌∙◌, ap, ℕ, ◌≡◌, true, false, List, [], ◌∷◌, Option, some, get_elem?, arith, inl, inr, Bool-cases,
  Option-cases, subst,
}
use lrc.Outcome.{ok, >>=-eq-ok}
use lrc.Keys.{KeyEq}
use lrc.Spark.{TokenTransaction, TokenLeafOutput, TokenLeafToSpend}
use lrc.Service.{SparkStorage, SparkBatch}
use lrc.Service.Transfers.{
  is_spent, parent_of, same_keys, spendable_leaf, check_spent_output, check_spent_outputs, frozen,
  add_leaf,
}

module _ {K G A : Type 0} (keys : KeyEq K) (bytes : KeyEq (List ℕ)) (peers : KeyEq A)
    (hash : TokenTransaction K G → List ℕ) (storage : SparkStorage K G) where
  -- The output is of a known transaction with the same operators, and its leaf is not frozen.
  pub record IsSpendable (tx : TokenTransaction K G)
      (checked_txs : List (List ℕ × TokenTransaction K G)) (o : TokenLeafToSpend)
      (leaf : TokenLeafOutput K) : Type 0 where
    pub stored : Option (TokenTransaction K G)
    pub parent_tx : TokenTransaction K G
    pub asked : storage.get_spark_tx_with_outputs o.parent_output_hash ≡ some stored
    pub known :
        parent_of keys bytes peers hash stored checked_txs o.parent_output_hash ≡ some parent_tx
    pub operators :
        same_keys keys tx.spark_operator_identity_public_keys
          parent_tx.spark_operator_identity_public_keys
        ≡ true
    pub found : get_elem? parent_tx.leaves_to_create o.parent_output_vout ≡ some leaf
    pub unfrozen : frozen keys bytes peers hash leaf.is_frozen ≡ false

  -- Each output is spent for the first time, and its leaf may be spent.
  abbrev pub Inputs :
      TokenTransaction K G
      → List (List ℕ × TokenTransaction K G)
      → List TokenLeafToSpend
      → List (TokenLeafOutput K)
      → List (List ℕ × ℕ)
      → Type 0
  Inputs tx checked_txs [] [] spent = Unit
  Inputs tx checked_txs [] (leaf ∷ leaves) spent = ⊥
  Inputs tx checked_txs (o ∷ outputs) [] spent = ⊥
  Inputs tx checked_txs (o ∷ outputs) (leaf ∷ leaves) spent =
      (is_spent keys bytes peers hash o spent ≡ false)
      × IsSpendable tx checked_txs o leaf
      × Inputs tx checked_txs outputs leaves ((o.parent_output_hash, o.parent_output_vout) ∷ spent)

  spendable_leaf-eq-some :
      (tx parent_tx : TokenTransaction K G) (vout : ℕ) (leaf : TokenLeafOutput K)
      → spendable_leaf keys bytes peers hash tx parent_tx vout ≡ some leaf
      → (same_keys keys tx.spark_operator_identity_public_keys
            parent_tx.spark_operator_identity_public_keys
          ≡ true)
        × (get_elem? parent_tx.leaves_to_create vout ≡ some leaf)
        × (frozen keys bytes peers hash leaf.is_frozen ≡ false)
  unfolding spendable_leaf
  spendable_leaf-eq-some tx parent_tx vout leaf e =
      elim (Bool-cases (
        same_keys keys tx.spark_operator_identity_public_keys
          parent_tx.spark_operator_identity_public_keys)) [
            | inr other ↦ absurd (ground (arith, e))
            | inl same ↦ elim (Option-cases (get_elem? parent_tx.leaves_to_create vout)) [
              | inl missing ↦ absurd (ground (arith, e))
              | inr (found, there) ↦
                  elim (Bool-cases (frozen keys bytes peers hash found.is_frozen)) [
                    | inl is_frozen ↦ absurd (ground (arith, e))
                    | inr unfrozen ↦ (same, ground (arith, e), ground (arith, e))
                  ]
            ]
          ]

  check_spent_output-eq-some :
      {X : Type 0} (tx : TokenTransaction K G) (sender : Option A)
      (checked_txs : List (List ℕ × TokenTransaction K G)) (now : ℕ) (o : TokenLeafToSpend)
      (b b' : SparkBatch K G A X) (leaf : TokenLeafOutput K)
      → check_spent_output keys bytes peers hash storage tx sender checked_txs now o b
        ≡ ok (some leaf, b')
      → (is_spent keys bytes peers hash o b.spent_leaves ≡ false)
        × IsSpendable tx checked_txs o leaf
        × (b'.spent_leaves ≡ (o.parent_output_hash, o.parent_output_vout) ∷ b.spent_leaves)
        × (b'.new_leaves ≡ b.new_leaves)
  unfolding check_spent_output
  check_spent_output-eq-some tx sender checked_txs now o b b' leaf e =
      elim (Bool-cases (is_spent keys bytes peers hash o b.spent_leaves)) [
        | inl twice ↦ absurd (ground (arith, e))
        | inr fresh ↦ elim (Option-cases (storage.get_spark_tx_with_outputs o.parent_output_hash)) [
          | inl failed ↦ absurd (ground (arith, e))
          | inr (stored, asked) ↦
              elim (Option-cases
                (parent_of keys bytes peers hash stored checked_txs o.parent_output_hash)) [
                  | inl unknown ↦ absurd (ground (arith, e))
                  | inr (parent_tx, known) ↦
                      elim (Option-cases
                        (spendable_leaf keys bytes peers hash tx parent_tx o.parent_output_vout)) [
                          | inl refused ↦ absurd (ground (arith, e))
                          | inr (found, taken) ↦
                              elim (Option-cases (
                                storage.get_spent_output o.parent_output_hash
                                  o.parent_output_vout)) [
                                    | inl failed ↦ absurd (ground (arith, e))
                                    | inr (spent_leaf, answered) ↦
                                        let same : found ≡ leaf = ground (arith, e) in
                                        let (operators, there, unfrozen) =
                                          spendable_leaf-eq-some tx parent_tx o.parent_output_vout
                                            leaf (taken ∙ ap some same) in
                                        (
                                          fresh,
                                          record {
                                            stored = stored;
                                            parent_tx = parent_tx;
                                            asked = asked;
                                            known = known;
                                            operators = operators;
                                            found = there;
                                            unfrozen = unfrozen;
                                          },
                                          ground (arith, e),
                                          ground (arith, e),
                                        )
                                  ]
                        ]
                ]
        ]
      ]

  check_spent_outputs-cons :
      {X : Type 0} (tx : TokenTransaction K G) (sender : Option A)
      (checked_txs : List (List ℕ × TokenTransaction K G)) (now : ℕ) (o : TokenLeafToSpend)
      (outputs : List TokenLeafToSpend) (b b' : SparkBatch K G A X)
      (leaves : List (TokenLeafOutput K))
      → check_spent_outputs keys bytes peers hash storage tx sender checked_txs now (o ∷ outputs) b
        ≡ ok (some leaves, b')
      → (leaf : TokenLeafOutput K) × (rest : List (TokenLeafOutput K)) × (b1 : SparkBatch K G A X)
        × (check_spent_output keys bytes peers hash storage tx sender checked_txs now o b
            ≡ ok (some leaf, b1))
        × (check_spent_outputs keys bytes peers hash storage tx sender checked_txs now outputs b1
            ≡ ok (some rest, b'))
        × (leaf ∷ rest ≡ leaves)
  unfolding check_spent_outputs
  check_spent_outputs-cons {X} tx sender checked_txs now o outputs b b' leaves e =
      let ((leaf, b1), checked, e') =
        >>=-eq-ok (check_spent_output keys bytes peers hash storage tx sender checked_txs now o b) _
          e in
      elim (Option-cases leaf) [
        | inl refused ↦ absurd (ground (arith, e', refused))
        | inr (found, there) ↦
            let ((rest, b2), others, e'') =
              >>=-eq-ok
                (check_spent_outputs keys bytes peers hash storage tx sender checked_txs now outputs
                  b1)
                (λ r. ok (add_leaf keys bytes peers hash found r.0, r.1)) (rw there at e') in
            elim (Option-cases rest) [
              | inl refused ↦ absurd (ground (arith, e'', refused))
              | inr (found_rest, there') ↦ (
                found,
                found_rest,
                b1,
                ground (arith, checked, there),
                ground (arith, others, there', e''),
                ground (arith, e'', there'),
              )
            ]
      ]

  pub check_spent_outputs-Inputs :
      {X : Type 0} (tx : TokenTransaction K G) (sender : Option A)
      (checked_txs : List (List ℕ × TokenTransaction K G)) (now : ℕ)
      (outputs : List TokenLeafToSpend) (b b' : SparkBatch K G A X)
      (leaves : List (TokenLeafOutput K))
      → check_spent_outputs keys bytes peers hash storage tx sender checked_txs now outputs b
        ≡ ok (some leaves, b')
      → Inputs tx checked_txs outputs leaves b.spent_leaves
  unfolding check_spent_outputs
  check_spent_outputs-Inputs tx sender checked_txs now [] b b' [] e = tt
  check_spent_outputs-Inputs tx sender checked_txs now [] b b' (l ∷ leaves) e = cc
  check_spent_outputs-Inputs tx sender checked_txs now (o ∷ outputs) b b' leaves e =
      let (leaf, rest, b1, first, others, all) =
        check_spent_outputs-cons tx sender checked_txs now o outputs b b' leaves e in
      let (fresh, spendable, spent, same) =
        check_spent_output-eq-some tx sender checked_txs now o b b1 leaf first in
      subst (λ l. Inputs tx checked_txs (o ∷ outputs) l b.spent_leaves) all
        (
          fresh,
          spendable,
          subst (Inputs tx checked_txs outputs rest) spent
              (check_spent_outputs-Inputs tx sender checked_txs now outputs b1 b' rest others),
        )

  pub check_spent_outputs_new_leaves :
      {X : Type 0} (tx : TokenTransaction K G) (sender : Option A)
      (checked_txs : List (List ℕ × TokenTransaction K G)) (now : ℕ)
      (outputs : List TokenLeafToSpend) (b b' : SparkBatch K G A X)
      (leaves : List (TokenLeafOutput K))
      → check_spent_outputs keys bytes peers hash storage tx sender checked_txs now outputs b
        ≡ ok (some leaves, b')
      → b'.new_leaves ≡ b.new_leaves
  unfolding check_spent_outputs
  check_spent_outputs_new_leaves tx sender checked_txs now [] b b' leaves e = ground (arith, e)
  check_spent_outputs_new_leaves tx sender checked_txs now (o ∷ outputs) b b' leaves e =
      let (leaf, rest, b1, first, others, all) =
        check_spent_outputs-cons tx sender checked_txs now o outputs b b' leaves e in
      let (fresh, spendable, spent, same) =
        check_spent_output-eq-some tx sender checked_txs now o b b1 leaf first in
      check_spent_outputs_new_leaves tx sender checked_txs now outputs b1 b' rest others ∙ same
