-- ===== src/Service/IssueLaws.antt =====
-- What an accepted issue of Spark has.
use lrc.Common.{
  ℕ, ◌≡◌, Bool, true, false, List, [], ◌∷◌, Option, none, some, All, arith, inl, inr, refl,
  Bool-cases, Option-cases, subst,
}
use lrc.Outcome.{ok, >>=-eq-ok}
use lrc.Keys.{KeyEq}
use lrc.Tables.{contains}
use lrc.Owner.{TokenPubkeyInfo}
use lrc.Spark.{TokenTransaction, TokenLeafOutput, OperatorSpecificOwnerSignature}
use lrc.Service.{SparkStorage}
use lrc.Service.Transfers.{is_taken}
use lrc.Service.TransferLaws.{NewIds}
use lrc.Service.Issues.{may_issue, check_issued_leaf, check_issued_leaves, check_spark_issue}

module _ {K G A : Type 0} (keys : KeyEq K) (bytes : KeyEq (List ℕ)) (peers : KeyEq A)
    (hash partial_hash : TokenTransaction K G → List ℕ) (verify : G → K → List ℕ → Option K → Bool)
    (storage : SparkStorage K G) (get_token_pubkey_info : K → Option (Option (TokenPubkeyInfo K)))
    (validate_announcement : Bool) where
  -- The leaf holds the issuer's token, which is announced where that is asked for.
  abbrev pub IsIssuedBy : K → TokenLeafOutput K → Type 0
  IsIssuedBy issuer leaf =
      (leaf.receipt.token_pubkey ≡ issuer)
      × (may_issue get_token_pubkey_info validate_announcement leaf.receipt.token_pubkey
          ≡ some true)

  check_issued_leaf-eq-true :
      (issuer : K) (tx_hash : List ℕ) (leaf : TokenLeafOutput K) (ids ids' : List (List ℕ))
      → check_issued_leaf keys bytes peers hash partial_hash verify storage get_token_pubkey_info
          validate_announcement issuer tx_hash leaf ids
        ≡ ok (true, ids')
      → (contains bytes leaf.id ids ≡ false)
        × ((stored : Option (List ℕ)) × (storage.get_spark_output_model leaf.id ≡ some stored)
            × (is_taken keys bytes peers hash tx_hash stored ≡ false))
        × IsIssuedBy issuer leaf
        × (ids' ≡ leaf.id ∷ ids)
  unfolding check_issued_leaf
  check_issued_leaf-eq-true issuer tx_hash leaf ids ids' e =
      elim (Bool-cases (contains bytes leaf.id ids)) [
        | inl twice ↦ absurd (ground (arith, e))
        | inr fresh ↦ elim (Option-cases (storage.get_spark_output_model leaf.id)) [
          | inl failed ↦ absurd (ground (arith, e))
          | inr (stored, asked) ↦
              elim (Bool-cases (is_taken keys bytes peers hash tx_hash stored)) [
                | inl taken ↦ absurd (ground (arith, e))
                | inr free ↦ elim (Bool-cases (keys.same leaf.receipt.token_pubkey issuer)) [
                  | inr other ↦ absurd (ground (arith, e))
                  | inl same ↦
                      elim (Option-cases (
                        may_issue get_token_pubkey_info validate_announcement
                          leaf.receipt.token_pubkey)) [
                            | inl failed ↦ absurd (ground (arith, e))
                            | inr (announced, known) ↦ (
                              fresh,
                              (stored, asked, free),
                              (
                                keys.same→eq leaf.receipt.token_pubkey issuer same,
                                ground (arith, e, known),
                              ),
                              ground (arith, e),
                            )
                          ]
                ]
              ]
        ]
      ]

  check_issued_leaves_sound :
      (issuer : K) (tx_hash : List ℕ) (leaves : List (TokenLeafOutput K)) (ids ids' : List (List ℕ))
      → check_issued_leaves keys bytes peers hash partial_hash verify storage get_token_pubkey_info
          validate_announcement issuer tx_hash leaves ids
        ≡ ok (true, ids')
      → NewIds keys bytes peers hash storage tx_hash leaves ids × All (IsIssuedBy issuer) leaves
  unfolding check_issued_leaves
  check_issued_leaves_sound issuer tx_hash [] ids ids' e = (tt, tt)
  check_issued_leaves_sound issuer tx_hash (leaf ∷ leaves) ids ids' e =
      let ((valid, ids1), checked, e') =
        >>=-eq-ok
          (check_issued_leaf keys bytes peers hash partial_hash verify storage get_token_pubkey_info
            validate_announcement issuer tx_hash leaf ids)
          _ e in
      elim (Bool-cases valid) [
        | inr refused ↦ absurd (ground (arith, e', refused))
        | inl is ↦
            let (fresh, free, issued, same) =
              check_issued_leaf-eq-true issuer tx_hash leaf ids ids1
                (ground (arith, checked, is)) in
            let (new, others) =
              check_issued_leaves_sound issuer tx_hash leaves ids1 ids' (ground (arith, e', is)) in
            (
              (fresh, free, subst (NewIds keys bytes peers hash storage tx_hash leaves) same new),
              (issued, others),
            )
      ]

  -- Where an issue of Spark is accepted, it has a signature of the issuer on its partial hash, the ids of
  -- its leaves are new in the batch and of no other transaction, and every leaf holds the issuer's token,
  -- which is announced where that is asked for.
  pub check_spark_issue_sound :
      (tx : TokenTransaction K G) (issuer : K)
      (signature : Option (OperatorSpecificOwnerSignature K G)) (ids ids' : List (List ℕ))
      → check_spark_issue keys bytes peers hash partial_hash verify storage get_token_pubkey_info
          validate_announcement tx issuer signature ids
        ≡ ok (true, ids')
      → (s : OperatorSpecificOwnerSignature K G) × (signature ≡ some s)
        × (verify s.owner_signature issuer (partial_hash tx) s.operator_identity_public_key ≡ true)
        × NewIds keys bytes peers hash storage (hash tx) tx.leaves_to_create ids
        × All (IsIssuedBy issuer) tx.leaves_to_create
  unfolding check_spark_issue
  check_spark_issue_sound tx issuer none ids ids' e = cc
  check_spark_issue_sound tx issuer (some s) ids ids' e =
      elim (Bool-cases
        (verify s.owner_signature issuer (partial_hash tx) s.operator_identity_public_key)) [
          | inr refused ↦ absurd (ground (arith, e, refused))
          | inl verified ↦
              let (new, issued) =
                check_issued_leaves_sound issuer (hash tx) tx.leaves_to_create ids ids'
                  (ground (arith, e, verified)) in
              (s, refl, verified, new, issued)
        ]
