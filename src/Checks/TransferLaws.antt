-- ===== src/Checks/TransferLaws.antt =====
-- When a transfer passes the isolated checks.
use lrc.Checks.Amounts.{check_conservation_rules}
use lrc.Checks.AmountLaws.{total}
use lrc.Common.{
  ℕ, ◌≡◌, List, [], ◌∷◌, All, some, get_elem?, refl, ap, sym, Option-cases, inl, inr, ◌∙◌, subst,
  arith, length, ◌<◌, ◌^◌, ◌↔◌,
}
use lrc.Outcome.{Result, ok, >>=-eq-ok, Result-cases}
use lrc.Proof.{ReceiptProof}
use lrc.Transaction.{ProofMap}
use lrc.Checks.{ProofForCheck, CheckError, BitcoinTypes, CheckableProof, ScriptKinds}
use lrc.Checks.Conservation.{inners, check_conservation_rules_lem}
use lrc.Checks.Isolated.{
  extract_from_iterable_by_proof_map, for_each, values, check_input, check_number_of_proofs,
  check_output, check_proofs_isolated, outputs_to_prove,
}
use lrc.Keys.{KeyEq, Secp256k1}
use lrc.Announcements.Script.{Scripts}

module _ {K V PE T : Type 0} where
  abbrev pub Passes :
      List T
      → (ProofForCheck K V T → Result (CheckError (ReceiptProof K V) PE) (Unit {0}))
      → ℕ × ReceiptProof K V
      → Type 0
  Passes iterable check e =
      (x : T) × (get_elem? iterable e.0 ≡ some x)
      × (check (record { statement = x; vout = e.0; inner = e.1 }) ≡ ok tt)

  extract_cons :
      (vout : ℕ) (proof : ReceiptProof K V) (m : ProofMap (ReceiptProof K V)) (iterable : List T)
      (gs : List (ProofForCheck K V T))
      → extract_from_iterable_by_proof_map {PE = PE} ((vout, proof) ∷ m) iterable ≡ ok gs
      → (x : T) × (hs : List (ProofForCheck K V T)) × (get_elem? iterable vout ≡ some x)
        × (extract_from_iterable_by_proof_map {PE = PE} m iterable ≡ ok hs)
        × (gs ≡ record { statement = x; vout = vout; inner = proof } ∷ hs)
  unfolding extract_from_iterable_by_proof_map
  extract_cons vout proof m iterable gs e = elim (Option-cases (get_elem? iterable vout)) [
    | inl missing ↦ ground (arith, e, missing)
    | inr (x, found) ↦
        elim (Result-cases (extract_from_iterable_by_proof_map {PE = PE} m iterable)) [
          | inl (hs, rest) ↦ (x, hs, found, rest, ground (arith, e, found, rest))
          | inr (f, fails) ↦ ground (arith, e, found, fails)
        ]
  ]

  pub extract-inners :
      (m : ProofMap (ReceiptProof K V)) (iterable : List T) (gs : List (ProofForCheck K V T))
      → extract_from_iterable_by_proof_map {PE = PE} m iterable ≡ ok gs
      → inners gs ≡ values m
  unfolding extract_from_iterable_by_proof_map values
  extract-inners [] iterable gs e = let nothing : [] ≡ gs = cc in ap inners (sym nothing)
  extract-inners ((vout, proof) ∷ m) iterable gs e =
      let (x, hs, found, rest, here) = extract_cons vout proof m iterable gs e in
      ap inners here ∙ ap (λ ps. proof ∷ ps) (extract-inners m iterable hs rest)

  pub extract-Passes :
      (m : ProofMap (ReceiptProof K V)) (iterable : List T) (gs : List (ProofForCheck K V T))
      (check : ProofForCheck K V T → Result (CheckError (ReceiptProof K V) PE) (Unit {0}))
      → extract_from_iterable_by_proof_map {PE = PE} m iterable ≡ ok gs
      → for_each check gs ≡ ok tt
      → All (Passes iterable check) m
  unfolding for_each
  extract-Passes [] iterable gs check e f = tt
  extract-Passes ((vout, proof) ∷ m) iterable gs check e f =
      let (x, hs, found, rest, here) = extract_cons vout proof m iterable gs e in
      let (u, passes, after) =
        >>=-eq-ok (check (record { statement = x; vout = vout; inner = proof }))
          (λ _. for_each check hs) (subst (λ l. for_each check l ≡ ok tt) here f) in
      ((x, found, passes), extract-Passes m iterable hs check rest after)

  pub Passes-extract :
      (m : ProofMap (ReceiptProof K V)) (iterable : List T)
      (check : ProofForCheck K V T → Result (CheckError (ReceiptProof K V) PE) (Unit {0}))
      → All (Passes iterable check) m
      → (gs : List (ProofForCheck K V T)) × (extract_from_iterable_by_proof_map {PE = PE} m iterable
          ≡ ok gs)
        × (for_each check gs ≡ ok tt)
  unfolding extract_from_iterable_by_proof_map for_each
  Passes-extract [] iterable check v = ([], refl, refl)
  Passes-extract ((vout, proof) ∷ m) iterable check ((x, found, passes), v) =
      let (gs, tail, checked) = Passes-extract m iterable check v in
      (
        record { statement = x; vout = vout; inner = proof } ∷ gs,
        simp (found, tail),
        simp (passes, checked),
      )

module _ {V PE : Type 0} (bitcoin : BitcoinTypes) (secp : Secp256k1) (keys : KeyEq (secp.PublicKey))
    (zero_key : secp.PublicKey) (scripts : Scripts) (kinds : ScriptKinds)
    (checkable : CheckableProof (secp.PublicKey) V PE (bitcoin.TxIn) (bitcoin.TxOut)) where
  open bitcoin use {Tx, TxIn, TxOut, input, output, script_pubkey}
  open secp use {PublicKey}

  pub number_of_proofs :
      (tx : Tx) (m : ProofMap (ReceiptProof PublicKey V))
      → (check_number_of_proofs bitcoin scripts {PE = PE} tx m ≡ ok tt)
        ↔ (length (outputs_to_prove bitcoin scripts tx) ≡ length m)
  unfolding check_number_of_proofs
  number_of_proofs tx m = ((λ e. ground (arith, e)), (λ e. ground (arith, e)))

  conserved :
      (inputs outputs : List (ReceiptProof PublicKey V))
      (ins : List (ProofForCheck PublicKey V TxIn)) (outs : List (ProofForCheck PublicKey V TxOut))
      → inners ins ≡ inputs
      → inners outs ≡ outputs
      → (check_conservation_rules keys zero_key {PE = PE} ins outs ≡ ok tt) ↔ (
          (k : PublicKey)
          → (total keys zero_key k inputs ≡ total keys zero_key k outputs)
            × (total keys zero_key k inputs < 2 ^ 128))
  conserved inputs outputs ins outs in_eq out_eq =
      subst
        (λ l. (check_conservation_rules keys zero_key {PE = PE} ins outs ≡ ok tt) ↔ (
          (k : PublicKey)
          → (total keys zero_key k l ≡ total keys zero_key k outputs)
            × (total keys zero_key k l < 2 ^ 128)))
        in_eq
        (subst
          (λ r. (check_conservation_rules keys zero_key {PE = PE} ins outs ≡ ok tt) ↔ (
            (k : PublicKey)
            → (total keys zero_key k (inners ins) ≡ total keys zero_key k r)
              × (total keys zero_key k (inners ins) < 2 ^ 128)))
          out_eq (check_conservation_rules_lem keys zero_key ins outs))

  -- A transfer passes exactly where it has as many output proofs as outputs that are no `OP_RETURN`,
  -- each proof is for an input or an output that is there and passes its check, and every token has
  -- the same amount in the proofs of the inputs as in those of the outputs, which is a u128.
  pub check_proofs_isolated_lem :
      (tx : Tx) (inputs outputs : ProofMap (ReceiptProof PublicKey V))
      → (check_proofs_isolated bitcoin secp keys zero_key scripts kinds checkable tx inputs outputs
          ≡ ok tt)
        ↔ (length (outputs_to_prove bitcoin scripts tx) ≡ length outputs)
          × All
              (Passes (input tx) (check_input bitcoin secp keys zero_key scripts kinds checkable))
              inputs
          × All
              (Passes (output tx) (check_output bitcoin secp keys zero_key scripts kinds checkable))
              outputs
          × ((k : PublicKey)
              → (total keys zero_key k (values inputs) ≡ total keys zero_key k (values outputs))
                × (total keys zero_key k (values inputs) < 2 ^ 128))
  unfolding check_proofs_isolated
  check_proofs_isolated_lem tx inputs outputs = (
    (λ e.
        let (u, numbers, e1) = >>=-eq-ok (check_number_of_proofs bitcoin scripts tx outputs) _ e in
        let (ins, extracted_ins, e2) =
          >>=-eq-ok (extract_from_iterable_by_proof_map inputs (input tx)) _ e1 in
        let (outs, extracted_outs, e3) =
          >>=-eq-ok (extract_from_iterable_by_proof_map outputs (output tx)) _ e2 in
        let (v, ins_pass, e4) =
          >>=-eq-ok (for_each (check_input bitcoin secp keys zero_key scripts kinds checkable) ins)
            _ e3 in
        let (w, outs_pass, equal) =
          >>=-eq-ok
            (for_each (check_output bitcoin secp keys zero_key scripts kinds checkable) outs) _
            e4 in
        (
          (number_of_proofs tx outputs).0 numbers,
          extract-Passes inputs (input tx) ins _ extracted_ins ins_pass,
          extract-Passes outputs (output tx) outs _ extracted_outs outs_pass,
          (conserved (values inputs) (values outputs) ins outs
                (extract-inners inputs (input tx) ins extracted_ins)
                (extract-inners outputs (output tx) outs extracted_outs)).0
              equal,
        )),
    (λ h.
        let (ins, extracted_ins, ins_pass) =
          Passes-extract inputs (input tx)
            (check_input bitcoin secp keys zero_key scripts kinds checkable) h.1 in
        let (outs, extracted_outs, outs_pass) =
          Passes-extract outputs (output tx)
            (check_output bitcoin secp keys zero_key scripts kinds checkable) h.2 in
        let numbers = (number_of_proofs tx outputs).1 h.0 in
        let equal : check_conservation_rules keys zero_key {PE = PE} ins outs ≡ ok tt =
          (conserved (values inputs) (values outputs) ins outs
              (extract-inners inputs (input tx) ins extracted_ins)
              (extract-inners outputs (output tx) outs extracted_outs)).1
            h.3 in
        simp (numbers, extracted_ins, extracted_outs, ins_pass, outs_pass, equal)),
  )
