-- ===== src/Service/FreezeLaws.antt =====
-- What an accepted transfer on Bitcoin has.
use lrc.Common.{
  ℕ, ◌≡◌, true, false, List, [], ◌∷◌, Option, none, some, get_elem?, All, arith, inl, inr, ap, ◌∙◌,
  Bool-cases, Option-cases,
}
use lrc.Outcome.{ok, >>=-eq-ok, ok_or, ok_or-eq-ok}
use lrc.Keys.{KeyEq}
use lrc.Proof.{ReceiptProof, spender_keys}
use lrc.Transaction.{ProofMap}
use lrc.Owner.{TokenPubkeyInfo, TxIn}
use lrc.Service.Announcements.{allows_freezes}
use lrc.Service.Freezes.{
  TransferStorage, TransferFailure, token_of, is_output_frozen, first_frozen, is_sender_frozen,
  passes_p2tr, check_parent, check_transfer_input, check_transfer,
}

module _ {K V : Type 0} (zero_key : K) (storage : TransferStorage K V) where
  -- Neither the output nor a key that may spend it is frozen, if the token's announcement allows freezes.
  pub record IsUnfrozen (parent : TxIn) (proof : ReceiptProof K V) : Type 0 where
    pub info : Option (TokenPubkeyInfo K)
    pub stored : storage.get_token_pubkey_info (token_of zero_key storage proof) ≡ some info
    pub output :
        allows_freezes info ≡ true → storage.is_proof_frozen parent.txid parent.vout ≡ some false
    pub keys :
        allows_freezes info ≡ true
        → All
            (λ k. storage.is_pubkey_frozen k (token_of zero_key storage proof) ≡ some false)
            (spender_keys proof)

  first_frozen-eq-none :
      (token : K) (pubkeys : List K)
      → first_frozen zero_key storage token pubkeys ≡ ok none
      → All (λ k. storage.is_pubkey_frozen k token ≡ some false) pubkeys
  unfolding first_frozen
  first_frozen-eq-none token [] e = tt
  first_frozen-eq-none token (k ∷ ks) e =
      let (frozen, asked, e') =
        >>=-eq-ok (ok_or (storage.is_pubkey_frozen k token) TransferFailure.query_failed) _ e in
      elim (Bool-cases frozen) [
        | inl is ↦ absurd (ground (arith, e', is))
        | inr other ↦ (
          ok_or-eq-ok (storage.is_pubkey_frozen k token) TransferFailure.query_failed
              (asked ∙ ap ok other),
          first_frozen-eq-none token ks (ground (arith, e', other)),
        )
      ]

  unfrozen :
      (parent : TxIn) (proof : ReceiptProof K V)
      → is_output_frozen zero_key storage parent proof ≡ ok false
      → is_sender_frozen zero_key storage proof ≡ ok none
      → IsUnfrozen parent proof
  unfolding is_output_frozen is_sender_frozen
  unfrozen parent proof e f =
      let (info, asked, e') =
        >>=-eq-ok
          (ok_or (storage.get_token_pubkey_info (token_of zero_key storage proof))
            TransferFailure.query_failed)
          _ e in
      let (info', asked', f') =
        >>=-eq-ok
          (ok_or (storage.get_token_pubkey_info (token_of zero_key storage proof))
            TransferFailure.query_failed)
          _ f in
      record {
        info = info;
        stored =
            ok_or-eq-ok (storage.get_token_pubkey_info (token_of zero_key storage proof))
              TransferFailure.query_failed asked;
        output = λ allowed.
            ok_or-eq-ok (storage.is_proof_frozen parent.txid parent.vout)
              TransferFailure.query_failed (ground (arith, e', allowed));
        keys = λ allowed.
            first_frozen-eq-none (token_of zero_key storage proof) (spender_keys proof)
              (ground (arith, f', allowed, asked, asked'));
      }

  module _ {A T : Type 0} (peers : KeyEq A) (txids : KeyEq (List ℕ)) (sender : Option A)
      (checked_txs : List (List ℕ × T)) where
    -- The proof is of an input that the transaction has; it may be spent.
    abbrev pub MaySpend : List TxIn → ℕ × ReceiptProof K V → Type 0
    MaySpend inputs (parent_id, proof) =
        (parent : TxIn) × (get_elem? inputs parent_id ≡ some parent)
        × IsUnfrozen parent proof
        × (passes_p2tr zero_key storage proof parent ≡ true)

    check_transfer_input-MaySpend :
        (inputs : List TxIn) (parent_id : ℕ) (proof : ReceiptProof K V)
        (asked asked' : List (A × List (List ℕ)))
        → check_transfer_input zero_key storage peers txids sender checked_txs inputs parent_id
            proof asked
          ≡ ok (true, asked')
        → MaySpend inputs (parent_id, proof)
    unfolding check_transfer_input check_parent
    check_transfer_input-MaySpend inputs i proof asked asked' e =
        let (parent, there, e') =
          >>=-eq-ok (ok_or (get_elem? inputs i) TransferFailure.input_not_found) _ e in
        let (frozen, output, e'') =
          >>=-eq-ok (is_output_frozen zero_key storage parent proof) _ e' in
        elim (Bool-cases frozen) [
          | inl is ↦ absurd (ground (arith, e'', is))
          | inr free ↦
              let (key, sent, e3) =
                >>=-eq-ok (is_sender_frozen zero_key storage proof)
                  (λ frozen_key. elim frozen_key [
                    | none ↦
                        check_parent zero_key storage peers txids sender checked_txs parent proof
                          asked
                    | some key ↦ ok (false, asked)
                  ])
                  {b = (true, asked')} (ground (arith, e'', free)) in
              elim (Option-cases key) [
                | inr (k, is) ↦ absurd (ground (arith, e3, is))
                | inl nobody ↦ elim (Bool-cases (passes_p2tr zero_key storage proof parent)) [
                  | inr refused ↦ absurd (ground (arith, e3, nobody, refused))
                  | inl passes ↦ (
                    parent,
                    ok_or-eq-ok (get_elem? inputs i) TransferFailure.input_not_found there,
                    unfrozen parent proof (output ∙ ap ok free) (sent ∙ ap ok nobody),
                    passes,
                  )
                ]
              ]
        ]

    -- Where a transfer is accepted, each proof is of an input of the transaction and, if it is a Taproot
    -- proof, valid for the output that this input spends; and neither that output nor a key of the proof
    -- is frozen, unless the token's announcement forbids freezes.
    pub check_transfer_sound :
        (inputs : List TxIn) (proofs : ProofMap (ReceiptProof K V))
        (asked asked' : List (A × List (List ℕ)))
        → check_transfer zero_key storage peers txids sender checked_txs inputs proofs asked
          ≡ ok (true, asked')
        → All (MaySpend inputs) proofs
    unfolding check_transfer
    check_transfer_sound inputs [] asked asked' e = tt
    check_transfer_sound inputs ((i, proof) ∷ proofs) asked asked' e =
        let ((valid, asked1), first, e') =
          >>=-eq-ok
            (check_transfer_input zero_key storage peers txids sender checked_txs inputs i proof
              asked)
            _ e in
        elim (Bool-cases valid) [
          | inr refused ↦ absurd (ground (arith, e', refused))
          | inl is ↦ (
            check_transfer_input-MaySpend inputs i proof asked asked1 (ground (arith, first, is)),
            check_transfer_sound inputs proofs asked1 asked' (ground (arith, e', is)),
          )
        ]
