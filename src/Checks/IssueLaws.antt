-- ===== src/Checks/IssueLaws.antt =====
-- When an issue passes the isolated checks.
use lrc.Checks.TransferLaws.{Passes, extract-Passes, number_of_proofs, Passes-extract}
use lrc.Transaction.{ProofMap}
use lrc.Common.{
  ℕ, ◌+◌, ◌%◌, ◌^◌, ◌<◌, ◌≡◌, ◌↔◌, ◌⊎◌, true, List, [], ◌∷◌, All, Option, some, none, arith, inl,
  inr, not, refl, ◌∙◌, if◌then◌else◌, ◌&&◌, ◌==◌, ap, Bool-cases, sym, subst, ==→eq, map, length,
  ==_refl,
}
use lrc.Outcome.{ok, err, Result, >>=-eq-ok, guard-eq-ok}
use lrc.Keys.{KeyEq, Secp256k1}
use lrc.Proof.{ReceiptProof, receipt_of, is_empty_receiptproof, amount}
use lrc.Announcements.Issue.{IssueAnnouncement}
use lrc.Announcements.Message.{from_bytes}
use lrc.Announcements.Script.{Scripts, parse_op_return_script}
use lrc.Checks.Isolated.{
  check_issue_announcement, check_same_token_pubkey_proofs, sum_u128, first_token, same_token, keep,
  compare_announcement, check_issue_isolated, outputs_to_prove, values, check_output_but_op_return,
  check_number_of_proofs, extract_from_iterable_by_proof_map, for_each,
}
use lrc.Checks.{CheckError, issue_announcement_mismatch, BitcoinTypes, ScriptKinds, CheckableProof}
use lrc.Announcements.Issue

unfoldable pub sum_of : List ℕ → ℕ
sum_of [] = 0
sum_of (n ∷ ns) = n + sum_of ns

pub sum_u128_lem :
    (acc : ℕ) (ns : List ℕ) → acc < 2 ^ 128 → sum_u128 acc ns ≡ (acc + sum_of ns) % 2 ^ 128
unfolding sum_u128 sum_of
sum_u128_lem acc [] h = omega (arith, h)
sum_u128_lem acc (n ∷ ns) h = omega (arith, sum_u128_lem ((acc + n) % 2 ^ 128) ns (omega arith))

abbrev or_else : {E A : Type 0} → Result E A → Option A → Option A
or_else (err e) o = o
or_else (ok a) o = some a

module _ (secp : Secp256k1) (keys : KeyEq (secp.PublicKey)) (scripts : Scripts) {TxOut : Type 0}
    (script_pubkey : TxOut → List ℕ) where
  open secp use {PublicKey}

  -- The announcement of the first output whose script is read as one.
  unfoldable pub announced : List TxOut → Option (IssueAnnouncement PublicKey)
  announced [] = none
  announced (o ∷ outputs) =
      let rest = announced outputs in
      or_else
        (parse_op_return_script scripts (from_bytes (Issue.from_announcement_data_bytes secp))
          (script_pubkey o))
        rest

  issued_eq :
      (a b : IssueAnnouncement PublicKey)
      → a.token_pubkey ≡ b.token_pubkey
      → a.amount ≡ b.amount
      → a ≡ b
  issued_eq a b h h' = cc

  same_key : (j k : PublicKey) → j ≡ k → keys.same j k ≡ true
  same_key j k h = ap (λ z. keys.same z k) h ∙ keys.same_refl k

  found_lem :
      {P PE : Type 0} (found a : IssueAnnouncement PublicKey) (n : ℕ)
      → ◌≡◌ {A = Result (CheckError P PE) ℕ}
          (if not (keys.same found.token_pubkey a.token_pubkey && (found.amount == a.amount))
            then err issue_announcement_mismatch
            else ok found.amount)
          (ok n)
        ↔ (some found ≡ some a) × (n ≡ a.amount)
  found_lem found a n = (
    (λ h.
        let token = keys.same→eq found.token_pubkey a.token_pubkey (ground (arith, h)) in
        let amount : found.amount ≡ a.amount = ground (arith, h) in
        (ap some (issued_eq found a token amount), ground (arith, h))),
    (λ h.
        let eq : found ≡ a = cc in
        let token = same_key found.token_pubkey a.token_pubkey (ap (λ z. z.token_pubkey) eq) in
        let amount = ap (λ z. z.amount) eq in ground (arith, token, amount, h.1)),
  )

  compare_lem :
      {P PE E : Type 0} (r : Result E (IssueAnnouncement PublicKey))
      (a : IssueAnnouncement PublicKey) (n : ℕ) (rest : Result (CheckError P PE) ℕ)
      (later : Option (IssueAnnouncement PublicKey))
      → ((rest ≡ ok n) ↔ (later ≡ some a) × (n ≡ a.amount))
      → (compare_announcement secp keys r a rest ≡ ok n)
        ↔ (or_else r later ≡ some a) × (n ≡ a.amount)
  compare_lem (err e) a n rest later h = h
  compare_lem (ok found) a n rest later h = found_lem found a n

  pub check_issue_announcement_lem :
      {P PE : Type 0} (outputs : List TxOut) (a : IssueAnnouncement PublicKey) (n : ℕ)
      → (check_issue_announcement {P = P} {PE = PE} secp keys scripts script_pubkey outputs a
          ≡ ok n)
        ↔ (announced outputs ≡ some a) × (n ≡ a.amount)
  unfolding check_issue_announcement announced
  check_issue_announcement_lem [] a n = ((λ e. cc), (λ h. let no = h.0 in cc))
  check_issue_announcement_lem {P = P} {PE = PE} (o ∷ outputs) a n =
      compare_lem
        (parse_op_return_script scripts (from_bytes (Issue.from_announcement_data_bytes secp))
          (script_pubkey o))
        a n _ (announced outputs) (check_issue_announcement_lem {P = P} {PE = PE} outputs a n)

module _ {K : Type 0} (keys : KeyEq K) where
  open keys use {same, same_refl}

  same_eq : (j k : K) → j ≡ k → same j k ≡ true
  same_eq j k h = ap (λ z. same z k) h ∙ same_refl k

module _ {K V : Type 0} (keys : KeyEq K) (zero_key : K) where
  open keys use {same, same_refl, same→eq}

  -- A proof that is empty or for the token.
  abbrev pub IsOf : K → ReceiptProof K V → Type 0
  IsOf k p = (is_empty_receiptproof p ≡ true) ⊎ ((receipt_of zero_key p).token_pubkey ≡ k)

  same_token_lem :
      {PE : Type 0} (k : K) (ps : List (ReceiptProof K V))
      → (same_token {PE = PE} keys zero_key k ps ≡ ok tt)
        ↔ All (λ p. (receipt_of zero_key p).token_pubkey ≡ k) ps
  unfolding same_token
  same_token_lem k [] = ((λ e. tt), (λ v. refl))
  same_token_lem {PE = PE} k (p ∷ ps) =
      let rec = same_token_lem {PE = PE} k ps in
      elim (Bool-cases (same (receipt_of zero_key p).token_pubkey k)) [
        | inl t ↦ ((λ e. (same→eq _ k t, rec.0 (simp (t) at e))), (λ v. simp (t, rec.1 v.1)))
        | inr f ↦ ((λ e. cc (simp (f) at e)), (λ v. let t = same_eq keys _ k v.0 in cc))
      ]

  first_token_lem :
      {PE : Type 0} (k : K) (ps : List (ReceiptProof K V))
      → (first_token {PE = PE} keys zero_key k ps ≡ ok tt)
        ↔ All (λ p. (receipt_of zero_key p).token_pubkey ≡ k) ps
  unfolding first_token same_token
  first_token_lem k [] = ((λ e. tt), (λ v. refl))
  first_token_lem {PE = PE} k (p ∷ ps) =
      elim (Bool-cases (same (receipt_of zero_key p).token_pubkey k)) [
        | inl t ↦
            let eq = same→eq _ k t in
            let rec =
              subst
                (λ z.
                  (same_token {PE = PE} keys zero_key z (p ∷ ps) ≡ ok tt)
                  ↔ All (λ p. (receipt_of zero_key p).token_pubkey ≡ k) (p ∷ ps))
                (sym eq) (same_token_lem {PE = PE} k (p ∷ ps)) in
            ((λ e. rec.0 (simp (t) at e)), (λ v. simp (t) (rec.1 v)))
        | inr f ↦ ((λ e. cc (simp (f) at e)), (λ v. let t = same_eq keys _ k v.0 in cc))
      ]

  keep_lem :
      (k : K) (ps : List (ReceiptProof K V))
      → All
          (λ p. (receipt_of zero_key p).token_pubkey ≡ k)
          (keep (λ p. not (is_empty_receiptproof p)) ps)
        ↔ All (IsOf k) ps
  unfolding keep
  keep_lem k [] = ((λ v. v), (λ v. v))
  keep_lem k (p ∷ ps) =
      let rec = keep_lem k ps in
      elim (Bool-cases (is_empty_receiptproof p)) [
        | inl t ↦ simp (t) ((λ v. (inl refl, rec.0 v)), (λ v. rec.1 v.1))
        | inr f ↦ simp (f) (
          (λ v. (inr v.0, rec.0 v.1)),
          (λ v. (elim v.0 [ inl e ↦ absurd (cc) | inr e ↦ e ], rec.1 v.1)),
        )
      ]

  pub check_same_token_pubkey_proofs_lem :
      {PE : Type 0} (ps : List (ReceiptProof K V)) (a : IssueAnnouncement K)
      → (check_same_token_pubkey_proofs {PE = PE} keys zero_key ps a ≡ ok tt)
        ↔ All (IsOf a.token_pubkey) ps
  unfolding check_same_token_pubkey_proofs
  check_same_token_pubkey_proofs_lem ps a =
      let filtered = keep_lem a.token_pubkey ps in
      let first = first_token_lem a.token_pubkey (keep (λ p. not (is_empty_receiptproof p)) ps) in
      ((λ e. filtered.0 (first.0 e)), (λ v. first.1 (filtered.1 v)))

module _ {V PE : Type 0} (bitcoin : BitcoinTypes) (secp : Secp256k1) (keys : KeyEq (secp.PublicKey))
    (zero_key : secp.PublicKey) (scripts : Scripts) (kinds : ScriptKinds)
    (checkable : CheckableProof (secp.PublicKey) V PE (bitcoin.TxIn) (bitcoin.TxOut)) where
  open bitcoin use {Tx, output, script_pubkey}
  open secp use {PublicKey}

  -- An issue with proofs passes exactly where the first output that is read as an issue announcement
  -- holds the given one, it has as many proofs as outputs that are no `OP_RETURN`, each proof is
  -- empty or for the announced token, each is for an output that is there and that it is the proof
  -- of or that is `OP_RETURN`, and the amounts sum up to the announced amount modulo 2^128.
  pub check_issue_isolated_lem :
      (tx : Tx) (proofs : ProofMap (ReceiptProof PublicKey V)) (a : IssueAnnouncement PublicKey)
      → (check_issue_isolated bitcoin secp keys zero_key scripts kinds checkable tx (some proofs) a
          ≡ ok tt)
        ↔ (announced secp keys scripts script_pubkey (output tx) ≡ some a)
          × (length (outputs_to_prove bitcoin scripts tx) ≡ length proofs)
          × All (IsOf keys zero_key a.token_pubkey) (values proofs)
          × All
              (Passes
                (output tx)
                (check_output_but_op_return bitcoin secp keys zero_key scripts kinds checkable))
              proofs
          × (sum_of (map (amount zero_key) (values proofs)) % 2 ^ 128 ≡ a.amount)
  unfolding check_issue_isolated
  check_issue_isolated_lem tx proofs a =
      let sums = sum_u128_lem 0 (map (amount zero_key) (values proofs)) (omega arith) in
      (
        (λ e.
            let (n, found, e1) =
              >>=-eq-ok (check_issue_announcement secp keys scripts script_pubkey (output tx) a) _
                e in
            let (u, numbers, e2) =
              >>=-eq-ok (check_number_of_proofs bitcoin scripts tx proofs) _ e1 in
            let (v, one_token, e3) =
              >>=-eq-ok (check_same_token_pubkey_proofs keys zero_key (values proofs) a) _ e2 in
            let (outs, extracted, e4) =
              >>=-eq-ok (extract_from_iterable_by_proof_map proofs (output tx)) _ e3 in
            let (w, pass, last) =
              >>=-eq-ok
                (for_each
                  (check_output_but_op_return bitcoin secp keys zero_key scripts kinds checkable)
                  outs)
                _ e4 in
            let announcement =
              (check_issue_announcement_lem secp keys scripts script_pubkey (output tx) a n).0
                found in
            let total : (sum_u128 0 (map (amount zero_key) (values proofs)) == n) ≡ true =
              guard-eq-ok _ _ last in
            (
              announcement.0,
              (number_of_proofs bitcoin secp keys zero_key scripts kinds checkable tx proofs).0
                  numbers,
              (check_same_token_pubkey_proofs_lem keys zero_key (values proofs) a).0 one_token,
              extract-Passes proofs (output tx) outs _ extracted pass,
              omega (arith, sums, ==→eq _ n total, announcement.1),
            )),
        (λ h.
            let found =
              (check_issue_announcement_lem secp keys scripts script_pubkey
                  {P = ReceiptProof PublicKey V} {PE = PE} (output tx) a a.amount).1
                (h.0, refl) in
            let numbers =
              (number_of_proofs bitcoin secp keys zero_key scripts kinds checkable tx proofs).1
                h.1 in
            let one_token =
              (check_same_token_pubkey_proofs_lem keys zero_key {PE = PE} (values proofs) a).1
                h.2 in
            let (outs, extracted, pass) =
              Passes-extract proofs (output tx)
                (check_output_but_op_return bitcoin secp keys zero_key scripts kinds checkable)
                h.3 in
            let total : sum_u128 0 (map (amount zero_key) (values proofs)) ≡ a.amount =
              omega (arith, sums, h.4) in
            simp (found, numbers, one_token, extracted, pass, total, ==_refl a.amount)),
      )
