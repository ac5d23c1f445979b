-- ===== src/Owner/Reveals.antt =====
-- What an input reveals of the script that it spends.
use lrc.Common.{
  ℕ, ◌≡◌, ◌⊎◌, true, List, some, get_elem?, arith, inl, inr, refl, ap, ◌∙◌, Bool-cases,
  Option-cases, subst,
}
use lrc.Outcome.{Result, ok, err, ◌>>=◌, >>=-eq-ok, ok_or, ok_or-eq-ok}
use lrc.Announcements.Script.{Instruction, op, push_bytes}
use lrc.Checks.Isolated.{AddressType, p2pkh, p2sh, p2wpkh, p2wsh, p2tr}
use lrc.Owner.{
  TxIn, OwnerError, ScriptParseError, OwnerCrates, last, handle_legacy_address_type, from_txin,
  spending_condition,
}

Instruction-cases :
    (i : Instruction) → ((code : ℕ) × (i ≡ op code)) ⊎ ((bytes : List ℕ) × (i ≡ push_bytes bytes))
Instruction-cases (op code) = inl (code, refl)
Instruction-cases (push_bytes bytes) = inr (bytes, refl)

module _ {K : Type 0} (crates : OwnerCrates K) where
  open crates use {keys, tweaks, spending, scripts, script_kinds, same_script, zero_key}

  -- The script of the input ends with a push of these bytes.
  abbrev pub PushesLast : TxIn → List ℕ → Type 0
  PushesLast input bytes =
      (instructions : List Instruction) × (scripts.instructions input.script_sig
        ≡ some instructions)
      × (last instructions ≡ some (push_bytes bytes))

  -- What the input reveals hashes to the script, or the client knows that it spends the script.
  abbrev pub Reveals : TxIn → List ℕ → AddressType → Type 0
  Reveals input script p2pkh =
      (bytes : List ℕ) × PushesLast input bytes
      × (spending.new_p2pkh (tweaks.hash160 bytes) ≡ script)
  Reveals input script p2sh =
      (bytes : List ℕ) × PushesLast input bytes
      × (spending.new_p2sh (tweaks.hash160 bytes) ≡ script)
  Reveals input script p2wpkh =
      (pubkey : List ℕ) × (get_elem? input.witness 1 ≡ some pubkey)
      × (spending.new_p2wpkh (tweaks.hash160 pubkey) ≡ script)
  Reveals input script p2wsh =
      (redeem_script : List ℕ) × (last input.witness ≡ some redeem_script)
      × (spending.new_p2wsh (tweaks.sha256 redeem_script) ≡ script)
  Reveals input script p2tr =
      (spending.get_tx_out input.txid input.vout ≡ some (some (some script)))
      × (spending.is_p2tr script ≡ true)

  last_push :
      {A : Type 0} (input : TxIn) (use_push : List ℕ → Result OwnerError A) (a : A)
      → (do
        instructions ←
            ok_or
              (scripts.instructions input.script_sig)
              (OwnerError.script_parse ScriptParseError.invalid_instruction)
        last_instruction ←
            ok_or
              (last instructions)
              (OwnerError.script_parse (ScriptParseError.insufficient_instructions 0))
        elim last_instruction [
          | op code ↦ err (OwnerError.script_parse ScriptParseError.not_data_push)
          | push_bytes bytes ↦ use_push bytes
        ])
        ≡ ok a
      → (bytes : List ℕ) × PushesLast input bytes × (use_push bytes ≡ ok a)
  last_push input use_push a e =
      let (instructions, parsed, e') =
        >>=-eq-ok
          (ok_or (scripts.instructions input.script_sig)
            (OwnerError.script_parse ScriptParseError.invalid_instruction))
          _ e in
      let (last_instruction, there, e'') =
        >>=-eq-ok
          (ok_or (last instructions)
            (OwnerError.script_parse (ScriptParseError.insufficient_instructions 0)))
          _ e' in
      elim (Instruction-cases last_instruction) [
        | inl (code, is) ↦ absurd (ground (arith, e'', is))
        | inr (bytes, is) ↦ (
          bytes,
          (
            instructions,
            ok_or-eq-ok (scripts.instructions input.script_sig)
                (OwnerError.script_parse ScriptParseError.invalid_instruction) parsed,
            ok_or-eq-ok (last instructions)
                  (OwnerError.script_parse (ScriptParseError.insufficient_instructions 0)) there
                ∙ ap some is,
          ),
          ground (arith, e'', is),
        )
      ]

  legacy-p2pkh :
      (input : TxIn) (script : List ℕ)
      → handle_legacy_address_type keys tweaks spending scripts script_kinds same_script zero_key
          input p2pkh
        ≡ ok script
      → Reveals input script p2pkh
  unfolding handle_legacy_address_type
  legacy-p2pkh input script e =
      let (bytes, pushes, e') =
        last_push input (λ bytes. ok (spending.new_p2pkh (tweaks.hash160 bytes))) script e in
      (bytes, pushes, ground (arith, e'))

  legacy-p2sh :
      (input : TxIn) (script : List ℕ)
      → handle_legacy_address_type keys tweaks spending scripts script_kinds same_script zero_key
          input p2sh
        ≡ ok script
      → Reveals input script p2sh
  unfolding handle_legacy_address_type
  legacy-p2sh input script e =
      let (bytes, pushes, e') =
        last_push input (λ bytes. ok (spending.new_p2sh (tweaks.hash160 bytes))) script e in
      (bytes, pushes, ground (arith, e'))

  -- The script that a spending condition has is the one that the input reveals.
  pub condition-Reveals :
      (input : TxIn) (t : AddressType) (script : List ℕ)
      → spending_condition keys tweaks spending scripts script_kinds same_script zero_key input t
        ≡ ok (some script)
      → Reveals input script t
  unfolding spending_condition from_txin
  condition-Reveals input p2pkh script e =
      let (found, read, e') =
        >>=-eq-ok
          (handle_legacy_address_type keys tweaks spending scripts script_kinds same_script zero_key
            input p2pkh)
          (λ found. ok (some found)) e in
      legacy-p2pkh input script (read ∙ ground (arith, e'))
  condition-Reveals input p2sh script e =
      let (found, read, e') =
        >>=-eq-ok
          (handle_legacy_address_type keys tweaks spending scripts script_kinds same_script zero_key
            input p2sh)
          (λ found. ok (some found)) e in
      legacy-p2sh input script (read ∙ ground (arith, e'))
  condition-Reveals input p2wpkh script e = elim (Option-cases (get_elem? input.witness 1)) [
    | inl short ↦ absurd (ground (arith, e, short))
    | inr (pubkey, there) ↦ (pubkey, there, ground (arith, e, there))
  ]
  condition-Reveals input p2wsh script e = elim (Option-cases (last input.witness)) [
    | inl empty_witness ↦ absurd (ground (arith, e, empty_witness))
    | inr (redeem_script, there) ↦ (redeem_script, there, ground (arith, e, there))
  ]
  condition-Reveals input p2tr script e =
      elim (Option-cases (spending.get_tx_out input.txid input.vout)) [
        | inl failed ↦ absurd (ground (arith, e, failed))
        | inr (answer, asked) ↦ elim (Option-cases answer) [
          | inl unknown ↦ absurd (ground (arith, e, asked, unknown))
          | inr (output, known) ↦ elim (Option-cases output) [
            | inl unread ↦ absurd (ground (arith, e, asked, known, unread))
            | inr (found, read) ↦ elim (Bool-cases (spending.is_p2tr found)) [
              | inr other ↦ absurd (ground (arith, e, asked, known, read, other))
              | inl is ↦
                  let same : found ≡ script = ground (arith, e, asked, known, read, is) in
                  (
                    asked ∙ ap some (known ∙ ap some (read ∙ ap some same)),
                    subst (λ x. spending.is_p2tr x ≡ true) same is,
                  )
            ]
          ]
        ]
      ]
