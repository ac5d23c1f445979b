-- ===== src/Service/Issues.antt =====
-- `check_spark_issue` of crates/tx-check/src/service.rs. `hash` and `partial_hash` are the final and the
-- partial hash of a token transaction, `verify` is the check of a signature of a key on a message.
use lrc.Common.{ℕ, Bool, true, false, if◌then◌else◌, List, [], ◌∷◌, Option, none, some}
use lrc.Outcome.{Result, ok, err, ◌>>=◌}
use lrc.Keys.{KeyEq}
use lrc.Tables.{contains}
use lrc.Owner.{TokenPubkeyInfo}
use lrc.Spark.{TokenTransaction, TokenLeafOutput, OperatorSpecificOwnerSignature}
use lrc.Service.{SparkStorage}
use lrc.Service.Announcements.{is_announced}
use lrc.Service.Transfers.{is_taken}

module _ {K : Type 0} (get_token_pubkey_info : K → Option (Option (TokenPubkeyInfo K)))
    (validate_announcement : Bool) where
  -- Whether the token is announced, where that is asked for; none is a failed query.
  unfoldable pub may_issue : K → Option Bool
  may_issue token =
      if validate_announcement
      then elim (get_token_pubkey_info token) [ none ↦ none | some info ↦ some (is_announced info) ]
      else some true

module _ {K G A : Type 0} (keys : KeyEq K) (bytes : KeyEq (List ℕ)) (peers : KeyEq A)
    (hash partial_hash : TokenTransaction K G → List ℕ) (verify : G → K → List ℕ → Option K → Bool)
    (storage : SparkStorage K G) (get_token_pubkey_info : K → Option (Option (TokenPubkeyInfo K)))
    (validate_announcement : Bool) where
  -- The body of the loop over the new leaves; an error has the ids so far.
  unfoldable pub check_issued_leaf :
      K → List ℕ → TokenLeafOutput K → List (List ℕ) → Result (List (List ℕ)) (Bool × List (List ℕ))
  check_issued_leaf issuer tx_hash leaf new_leaves =
      if contains bytes leaf.id new_leaves
      then ok (false, new_leaves)
      else elim (storage.get_spark_output_model leaf.id) [
        | none ↦ err new_leaves
        | some stored ↦
            if is_taken keys bytes peers hash tx_hash stored
            then ok (false, new_leaves)
            else (if keys.same leaf.receipt.token_pubkey issuer
                then elim (may_issue get_token_pubkey_info validate_announcement
                    leaf.receipt.token_pubkey) [
                      | none ↦ err new_leaves
                      | some announced ↦
                          if announced
                          then ok (true, leaf.id ∷ new_leaves)
                          else ok (false, new_leaves)
                    ]
                else ok (false, new_leaves))
      ]

  unfoldable pub check_issued_leaves :
      K
      → List ℕ
      → List (TokenLeafOutput K)
      → List (List ℕ)
      → Result (List (List ℕ)) (Bool × List (List ℕ))
  check_issued_leaves issuer tx_hash [] new_leaves = ok (true, new_leaves)
  check_issued_leaves issuer tx_hash (leaf ∷ leaves) new_leaves = do
    (is_valid, ids) ← check_issued_leaf issuer tx_hash leaf new_leaves
    let rest = check_issued_leaves issuer tx_hash leaves ids
    if is_valid then rest else ok (false, ids)

  unfoldable pub check_spark_issue :
      TokenTransaction K G
      → K
      → Option (OperatorSpecificOwnerSignature K G)
      → List (List ℕ)
      → Result (List (List ℕ)) (Bool × List (List ℕ))
  check_spark_issue tx issuer_pubkey none new_leaves = ok (false, new_leaves)
  check_spark_issue tx issuer_pubkey (some issuer_signature) new_leaves =
      let leaves = check_issued_leaves issuer_pubkey (hash tx) tx.leaves_to_create new_leaves in
      if verify issuer_signature.owner_signature issuer_pubkey (partial_hash tx)
        issuer_signature.operator_identity_public_key
      then leaves
      else ok (false, new_leaves)
