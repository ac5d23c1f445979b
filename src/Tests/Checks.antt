-- ===== src/Tests/Checks.antt =====
-- Transfers and issues at concrete values.
use lrc.Checks.AmountLaws.{total}
use lrc.Checks.IssueLaws.{announced, IsOf, check_issue_isolated_lem, sum_of}
use lrc.Common.{ℕ, ◌≡◌, List, [], ◌∷◌, refl, some, ◌+◌, ◌^◌, length, All, map, ◌%◌, inr, ◌<◌}
use lrc.Outcome.{ok}
use lrc.Proof.{ReceiptProof, amount}
use lrc.Transaction.{ProofMap}
use lrc.Checks.Isolated.{
  check_proofs_isolated, values, outputs_to_prove, check_issue_isolated, check_output_but_op_return,
}
use lrc.Samples.{secp, keys, scripts, bitcoin, kinds, checkable, proof_of}
use lrc.Announcements.Issue.{IssueAnnouncement}
use lrc.Checks.{ProofForCheck}
use lrc.Checks.Amounts.{check_conservation_rules}
use lrc.Checks.Conservation.{check_conservation_rules_lem, inners}
use lrc.Checks.TransferLaws.{check_proofs_isolated_lem, Passes}
use lrc.Announcements.Message.{to_bytes}
use lrc.Announcements.Message

abbrev one_proof : ProofMap (ReceiptProof ℕ ℕ)
one_proof = (0, proof_of 5) ∷ []

abbrev two_proofs : ProofMap (ReceiptProof ℕ ℕ)
two_proofs = (0, proof_of 2) ∷ (1, proof_of 3) ∷ []

abbrev transfer_tx : List ℕ × List (List ℕ)
transfer_tx = (1 ∷ [], (0x51 ∷ []) ∷ (0x52 ∷ []) ∷ (0x6a ∷ 1 ∷ []) ∷ [])

transfer_accepted :
    check_proofs_isolated bitcoin secp keys 2 scripts kinds checkable transfer_tx one_proof
      two_proofs
    ≡ ok tt
unfolding check_proofs_isolated lrc.Checks.Isolated.check_number_of_proofs
    lrc.Checks.Isolated.outputs_to_prove lrc.Checks.Isolated.extract_from_iterable_by_proof_map
    lrc.Checks.Isolated.for_each lrc.Checks.Isolated.check_input lrc.Proof.is_burn
    lrc.Checks.Isolated.check_output lrc.Checks.Amounts.check_conservation_rules
    lrc.Checks.Amounts.sum_amount_by_token_pubkey lrc.Checks.Amounts.sum_from
    lrc.Checks.Amounts.is_skipped lrc.Proof.is_empty_receiptproof lrc.Proof.receipt_of
    lrc.Checks.Amounts.add_to lrc.Checks.Amounts.checked_add lrc.Checks.Amounts.same_sums
    lrc.Checks.Amounts.included lrc.Checks.Amounts.get lrc.Checks.Isolated.keep lrc.Receipt.empty
transfer_accepted = refl

check_proofs_isolated_example :
    (total keys 2 7 (values one_proof) ≡ total keys 2 7 (values two_proofs))
    × (total keys 2 7 (values one_proof) < 2 ^ 128)
check_proofs_isolated_example =
    ((check_proofs_isolated_lem bitcoin secp keys 2 scripts kinds checkable transfer_tx one_proof
          two_proofs).0
        transfer_accepted).3
      7

abbrev gathered : List (ProofForCheck ℕ ℕ ℕ)
gathered = record { statement = 1; vout = 0; inner = proof_of 5 } ∷ []

abbrev other_gathered : List (ProofForCheck ℕ ℕ ℕ)
other_gathered =
    record { statement = 1; vout = 0; inner = proof_of 2 }
    ∷ record { statement = 1; vout = 1; inner = proof_of 3 }
    ∷ []

conserved : check_conservation_rules keys 2 {PE = Unit {0}} gathered other_gathered ≡ ok tt
unfolding lrc.Checks.Amounts.check_conservation_rules lrc.Checks.Amounts.sum_amount_by_token_pubkey
    lrc.Checks.Amounts.sum_from lrc.Checks.Amounts.is_skipped lrc.Proof.is_empty_receiptproof
    lrc.Proof.receipt_of lrc.Checks.Amounts.add_to lrc.Checks.Amounts.checked_add
    lrc.Checks.Amounts.same_sums lrc.Checks.Amounts.included lrc.Checks.Amounts.get
conserved = refl

check_conservation_rules_example :
    total keys 2 7 (inners gathered) ≡ total keys 2 7 (inners other_gathered)
check_conservation_rules_example =
    ((check_conservation_rules_lem keys 2 gathered other_gathered).0 conserved 7).0

abbrev issued : IssueAnnouncement ℕ
issued = record { token_pubkey = 7; amount = 5 }

abbrev issue_script : List ℕ
issue_script = 0x6a ∷ to_bytes secp (Message.Announcement.issue issued)

abbrev issue_tx : List ℕ × List (List ℕ)
issue_tx = ([], (0x51 ∷ []) ∷ (0x52 ∷ []) ∷ issue_script ∷ [])

issue_announced : announced secp keys scripts (λ o. o) (issue_tx.1) ≡ some issued
unfolding announced lrc.Announcements.Script.parse_op_return_script
    lrc.Announcements.Script.is_announcement to_bytes Message.kind
    Message.to_announcement_data_bytes lrc.Announcements.Issue.to_announcement_data_bytes
    lrc.Receipt.token_pubkey_to_bytes lrc.Common.Words.to_le_bytes lrc.Common.bytes_eq
    Message.from_bytes lrc.Announcements.Issue.from_announcement_data_bytes
    lrc.Announcements.Issue.parse_token_pubkey lrc.Receipt.token_pubkey_from_bytes
    lrc.Common.Words.from_le_bytes
issue_announced = refl

abbrev wrapped_proofs : ProofMap (ReceiptProof ℕ ℕ)
wrapped_proofs = (0, proof_of (2 ^ 127)) ∷ (1, proof_of (2 ^ 127 + 5)) ∷ []

issue_numbers : length (outputs_to_prove bitcoin scripts issue_tx) ≡ 2
unfolding outputs_to_prove lrc.Checks.Isolated.keep to_bytes
issue_numbers = refl

two_proofs_pass :
    All
      (Passes (issue_tx.1) (check_output_but_op_return bitcoin secp keys 2 scripts kinds checkable))
      two_proofs
unfolding check_output_but_op_return lrc.Checks.Isolated.check_output
two_proofs_pass = ((0x51 ∷ [], refl, refl), ((0x52 ∷ [], refl, refl), tt))

wrapped_proofs_pass :
    All
      (Passes (issue_tx.1) (check_output_but_op_return bitcoin secp keys 2 scripts kinds checkable))
      wrapped_proofs
unfolding check_output_but_op_return lrc.Checks.Isolated.check_output
wrapped_proofs_pass = ((0x51 ∷ [], refl, refl), ((0x52 ∷ [], refl, refl), tt))

two_proofs_token : All (IsOf keys 2 7) (values two_proofs)
unfolding values lrc.Proof.receipt_of
two_proofs_token = (inr refl, (inr refl, tt))

wrapped_proofs_token : All (IsOf keys 2 7) (values wrapped_proofs)
unfolding values lrc.Proof.receipt_of
wrapped_proofs_token = (inr refl, (inr refl, tt))

two_proofs_sum : sum_of (map (amount 2) (values two_proofs)) % 2 ^ 128 ≡ 5
unfolding values sum_of amount lrc.Proof.receipt_of
two_proofs_sum = refl

wrapped_proofs_sum : sum_of (map (amount 2) (values wrapped_proofs)) % 2 ^ 128 ≡ 5
unfolding values sum_of amount lrc.Proof.receipt_of
wrapped_proofs_sum = refl

check_issue_isolated_example :
    check_issue_isolated bitcoin secp keys 2 scripts kinds checkable issue_tx
      (some two_proofs)
      issued
    ≡ ok tt
check_issue_isolated_example =
    (check_issue_isolated_lem bitcoin secp keys 2 scripts kinds checkable issue_tx two_proofs
        issued).1
      (issue_announced, issue_numbers, two_proofs_token, two_proofs_pass, two_proofs_sum)

-- Proofs of 2^128 more than the announced amount pass as well.
wrapped_issue :
    check_issue_isolated bitcoin secp keys 2 scripts kinds checkable issue_tx
      (some wrapped_proofs)
      issued
    ≡ ok tt
wrapped_issue =
    (check_issue_isolated_lem bitcoin secp keys 2 scripts kinds checkable issue_tx wrapped_proofs
        issued).1
      (
        issue_announced, issue_numbers, wrapped_proofs_token, wrapped_proofs_pass,
        wrapped_proofs_sum,
      )
