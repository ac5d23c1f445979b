-- ===== src/Checks/Isolated.antt =====
-- crates/tx-check/src/isolated_checks.rs: the checks of a transaction on its own, for the build
-- without the feature `bulletproof`. Sums of `u128` wrap, as they do in a release build.
use lrc.Common.{
  ℕ, ◌+◌, ◌%◌, ◌^◌, Bool, true, false, if◌then◌else◌, List, [], ◌∷◌, get_elem?, Option, length, map,
  none, not, some, ◌&&◌, ◌==◌,
}
use lrc.Outcome.{Result, ok, err, ◌>>=◌, ◌>>◌, ok_or, guard, map_err}
use lrc.Proof.{ReceiptProof, is_burn, is_empty_receiptproof, receipt_of, spark_exit, amount}
use lrc.Announcements.Message.{Announcement, from_bytes}
use lrc.Announcements.Ownership.{TransferOwnershipAnnouncement}
use lrc.Transaction.{ProofMap, Lrc20Transaction, Lrc20TxType, transfer, announcement, spark_exit}
use lrc.Checks.{
  ProofForCheck, CheckError, ScriptKinds, new_owner_p2tr_address,
  proof_mapped_to_not_existing_input_output, BitcoinTypes, CheckableProof,
  announced_amount_does_not_match, burnt_tokens_spending, invalid_proof,
  issue_announcement_mismatch, issue_announcement_not_provided, not_enough_proofs,
  not_same_token_pubkey,
}
use lrc.Announcements.Issue.{IssueAnnouncement}
use lrc.Keys.{KeyEq, Secp256k1}
use lrc.Announcements.Script.{Scripts, parse_op_return_script}
use lrc.Checks.Amounts.{check_conservation_rules}
use lrc.Announcements.Issue

-- `bitcoin::AddressType`, in the variants that the code names.
pub data AddressType : Type 0 where
  p2pkh : AddressType
  p2sh : AddressType
  p2wpkh : AddressType
  p2wsh : AddressType
  p2tr : AddressType

unfoldable pub script_to_address_type : ScriptKinds → List ℕ → AddressType
script_to_address_type kinds script =
    if kinds.is_p2pkh script
    then p2pkh
    else if kinds.is_p2sh script
    then p2sh
    else if kinds.is_p2wpkh script
    then p2wpkh
    else if kinds.is_p2wsh script
    then p2wsh
    else p2tr

abbrev is_p2tr : AddressType → Bool
is_p2tr p2tr = true
is_p2tr _ = false

module _ {P PE : Type 0} {K : Type 0} (kinds : ScriptKinds) where
  unfoldable pub check_transfer_ownership_announcement :
      TransferOwnershipAnnouncement K → Result (CheckError P PE) (Unit {0})
  check_transfer_ownership_announcement a =
      if is_p2tr (script_to_address_type kinds a.new_owner)
      then err new_owner_p2tr_address
      else ok tt

  unfoldable pub check_announcement_isolated : Announcement K → Result (CheckError P PE) (Unit {0})
  check_announcement_isolated (Announcement.token_pubkey a) = ok tt
  check_announcement_isolated (Announcement.token_logo a) = ok tt
  check_announcement_isolated (Announcement.tx_freeze a) = ok tt
  check_announcement_isolated (Announcement.pubkey_freeze a) = ok tt
  check_announcement_isolated (Announcement.issue a) = ok tt
  check_announcement_isolated (Announcement.transfer_ownership a) =
      check_transfer_ownership_announcement a

module _ {K V PE : Type 0} where
  unfoldable pub extract_from_iterable_by_proof_map :
      {T : Type 0}
      → ProofMap (ReceiptProof K V)
      → List T
      → Result (CheckError (ReceiptProof K V) PE) (List (ProofForCheck K V T))
  extract_from_iterable_by_proof_map [] iterable = ok []
  extract_from_iterable_by_proof_map ((vout, proof) ∷ m) iterable = do
    item ← ok_or (get_elem? iterable vout) proof_mapped_to_not_existing_input_output
    gathered_proofs ← extract_from_iterable_by_proof_map m iterable
    ok (record { statement = item; vout = vout; inner = proof } ∷ gathered_proofs)

-- The loops `for x in xs { check(x)?; }`
unfoldable pub for_each : {T E : Type 0} → (T → Result E (Unit {0})) → List T → Result E (Unit {0})
for_each check [] = ok tt
for_each check (x ∷ xs) = do check x; for_each check xs

-- `sum::<u128>()`, from the sum so far.
unfoldable pub sum_u128 : ℕ → List ℕ → ℕ
sum_u128 acc [] = acc
sum_u128 acc (n ∷ ns) = sum_u128 ((acc + n) % 2 ^ 128) ns

unfoldable pub values : {P : Type 0} → ProofMap P → List P
values [] = []
values ((vout, proof) ∷ m) = proof ∷ values m

unfoldable pub keep {ℓ} : {A : Type ℓ} → (A → Bool) → List A → List A
keep test [] = []
keep test (x ∷ xs) = if test x then x ∷ keep test xs else keep test xs

module _ (bitcoin : BitcoinTypes) (scripts : Scripts) where
  open bitcoin use {Tx, TxIn, TxOut, input, output, script_pubkey}

  unfoldable pub outputs_to_prove : Tx → List TxOut
  unfolding keep
  outputs_to_prove tx = keep (λ o. not (scripts.is_op_return (script_pubkey o))) (output tx)

  unfoldable pub check_number_of_proofs :
      {P PE : Type 0} → Tx → ProofMap P → Result (CheckError P PE) (Unit {0})
  check_number_of_proofs tx proofs =
      if length (outputs_to_prove tx) == length proofs
      then ok tt
      else err (not_enough_proofs (length proofs) (length (output tx)))

module _ {P PE : Type 0} (secp : Secp256k1) (keys : KeyEq (secp.PublicKey)) where
  open secp use {PublicKey}

  -- One round of the loop: the rest of it goes on where the script holds no announcement.
  abbrev pub compare_announcement :
      {E : Type 0}
      → Result E (IssueAnnouncement PublicKey)
      → IssueAnnouncement PublicKey
      → Result (CheckError P PE) ℕ
      → Result (CheckError P PE) ℕ
  compare_announcement (err e) provided rest = rest
  compare_announcement (ok found) provided rest =
      if not
        (keys.same found.token_pubkey provided.token_pubkey && (found.amount == provided.amount))
      then err issue_announcement_mismatch
      else ok found.amount

module _ {P PE : Type 0} (secp : Secp256k1) (keys : KeyEq (secp.PublicKey)) (scripts : Scripts)
    {TxOut : Type 0} (script_pubkey : TxOut → List ℕ) where
  open secp use {PublicKey}

  -- `check_issue_announcement`, over the outputs of the transaction.
  unfoldable pub check_issue_announcement :
      List TxOut → IssueAnnouncement PublicKey → Result (CheckError P PE) ℕ
  check_issue_announcement [] provided = err issue_announcement_not_provided
  check_issue_announcement (o ∷ outputs) provided =
      let rest = check_issue_announcement outputs provided in
      compare_announcement secp keys
        (parse_op_return_script scripts (from_bytes (Issue.from_announcement_data_bytes secp))
          (script_pubkey o))
        provided rest

module _ {K V PE : Type 0} (keys : KeyEq K) (zero_key : K) where
  open keys use {same}

  unfoldable pub same_token :
      K → List (ReceiptProof K V) → Result (CheckError (ReceiptProof K V) PE) (Unit {0})
  same_token k [] = ok tt
  same_token k (p ∷ ps) =
      if same (receipt_of zero_key p).token_pubkey k
      then same_token k ps
      else err not_same_token_pubkey

  unfoldable pub first_token :
      K → List (ReceiptProof K V) → Result (CheckError (ReceiptProof K V) PE) (Unit {0})
  unfolding same_token
  first_token announced [] = ok tt
  first_token announced (first ∷ ps) = do
    guard (same (receipt_of zero_key first).token_pubkey announced) issue_announcement_mismatch
    same_token (receipt_of zero_key first).token_pubkey (first ∷ ps)

  unfoldable pub check_same_token_pubkey_proofs :
      List (ReceiptProof K V)
      → IssueAnnouncement K
      → Result (CheckError (ReceiptProof K V) PE) (Unit {0})
  unfolding first_token
  check_same_token_pubkey_proofs proofs issued =
      first_token issued.token_pubkey (keep (λ p. not (is_empty_receiptproof p)) proofs)

module _ {V PE : Type 0} (bitcoin : BitcoinTypes) (secp : Secp256k1) (keys : KeyEq (secp.PublicKey))
    (zero_key : secp.PublicKey) (scripts : Scripts) (kinds : ScriptKinds)
    (checkable : CheckableProof (secp.PublicKey) V PE (bitcoin.TxIn) (bitcoin.TxOut)) where
  open bitcoin use {Tx, TxIn, TxOut, input, output, script_pubkey}
  open secp use {PublicKey}

  abbrev Checked : Type 0 → Type 0
  Checked A = Result (CheckError (ReceiptProof PublicKey V) PE) A

  unfoldable pub check_output : ProofForCheck PublicKey V TxOut → Checked (Unit {0})
  check_output p =
      map_err (λ e. invalid_proof p.inner p.vout e)
        (checkable.checked_check_by_output p.inner p.statement)

  -- With the outputs behind `OP_RETURN` passed over.
  unfoldable pub check_output_but_op_return : ProofForCheck PublicKey V TxOut → Checked (Unit {0})
  check_output_but_op_return p =
      if scripts.is_op_return (script_pubkey p.statement) then ok tt else check_output p

  unfoldable pub check_input : ProofForCheck PublicKey V TxIn → Checked (Unit {0})
  check_input p = do
    guard (not (is_burn zero_key keys.same p.inner)) burnt_tokens_spending
    map_err (λ e. invalid_proof p.inner p.vout e)
        (checkable.checked_check_by_input p.inner p.statement)

  unfoldable pub check_issue_isolated :
      Tx
      → Option (ProofMap (ReceiptProof PublicKey V))
      → IssueAnnouncement PublicKey
      → Checked (Unit {0})
  check_issue_isolated tx none issued = err (not_enough_proofs 0 (length (output tx)))
  check_issue_isolated tx (some proofs) issued = do
    announced_amount ← check_issue_announcement secp keys scripts script_pubkey (output tx) issued
    check_number_of_proofs bitcoin scripts tx proofs
    check_same_token_pubkey_proofs keys zero_key (values proofs) issued
    gathered_outputs ← extract_from_iterable_by_proof_map proofs (output tx)
    for_each check_output_but_op_return gathered_outputs
    let total_amount = sum_u128 0 (map (amount zero_key) (values proofs))
    guard (total_amount == announced_amount)
        (announced_amount_does_not_match announced_amount total_amount)

  -- `check_transfer_isolated`, which is `check_proofs_isolated`.
  unfoldable pub check_proofs_isolated :
      Tx
      → ProofMap (ReceiptProof PublicKey V)
      → ProofMap (ReceiptProof PublicKey V)
      → Checked (Unit {0})
  check_proofs_isolated tx inputs outputs = do
    check_number_of_proofs bitcoin scripts tx outputs
    gathered_inputs ← extract_from_iterable_by_proof_map inputs (input tx)
    gathered_outputs ← extract_from_iterable_by_proof_map outputs (output tx)
    for_each check_input gathered_inputs
    for_each check_output gathered_outputs
    check_conservation_rules keys zero_key gathered_inputs gathered_outputs

  unfoldable pub check_spark_exit_isolated :
      Tx → ProofMap (ReceiptProof PublicKey V) → Checked (Unit {0})
  check_spark_exit_isolated tx outputs = do
    check_number_of_proofs bitcoin scripts tx outputs
    gathered_outputs ← extract_from_iterable_by_proof_map outputs (output tx)
    for_each check_output_but_op_return gathered_outputs

  unfoldable pub check_transaction :
      Lrc20Transaction Tx PublicKey (ReceiptProof PublicKey V) → Checked (Unit {0})
  check_transaction t = elim t.tx_type [
    | Lrc20TxType.issue proofs a ↦ check_issue_isolated t.bitcoin_tx proofs a
    | transfer inputs outputs ↦ check_proofs_isolated t.bitcoin_tx inputs outputs
    | announcement a ↦ check_announcement_isolated kinds a
    | spark_exit outputs ↦ check_spark_exit_isolated t.bitcoin_tx outputs
  ]
