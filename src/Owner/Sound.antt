-- ===== src/Owner/Sound.antt =====
-- What an input has that the search finds to be the owner's.
use lrc.Common.{
  ℕ, ◌≡◌, ◌⊎◌, true, ◌||◌, List, [], ◌∷◌, ◌++◌, Option, none, some, arith, inl, inr, refl, ap, ◌∙◌,
  sym, Bool-cases, Option-cases, subst,
}
use lrc.Outcome.{ok, >>=-eq-ok, ok_or, ok_or-eq-ok}
use lrc.Receipt.{empty}
use lrc.ReceiptKey.{receipt_hash, receipt_key}
use lrc.Checks.Isolated.{script_to_address_type}
use lrc.Owner.Reveals.{Reveals, condition-Reveals}
use lrc.Owner.{
  TokenPubkeyInfo, TxIn, OwnerError, OwnerCrates, p2wpkh_witness_key, handle_p2wpkh_input,
  spending_condition, is_owner, find_owner, find_owner_in_txinputs, find_with,
}

module _ {K : Type 0} (crates : OwnerCrates K) where
  open crates use {keys, tweaks, spending, scripts, script_kinds, same_script, zero_key}

  -- Without an owner's script, the witness is a signature with the token's key or with the receipt key of
  -- the empty receipt and that key.
  abbrev pub IsOwners : TxIn → K → Option (List ℕ) → Type 0
  IsOwners input token (some script) =
      Reveals crates input script (script_to_address_type script_kinds script)
  IsOwners input token none =
      (signature : List ℕ) × (pubkey : List ℕ) × (key : K) × (input.witness
        ≡ signature ∷ pubkey ∷ [])
      × (spending.is_signature signature ≡ true)
      × (spending.key_from_slice pubkey ≡ some key)
      × ((key ≡ token)
          ⊎ (receipt_key tweaks (receipt_hash tweaks (empty zero_key)) token ≡ some key))

  witness_key-eq-some :
      (witness : List (List ℕ)) (key : K)
      → p2wpkh_witness_key keys tweaks spending scripts script_kinds same_script zero_key witness
        ≡ some key
      → (signature : List ℕ) × (pubkey : List ℕ) × (witness ≡ signature ∷ pubkey ∷ [])
        × (spending.is_signature signature ≡ true)
        × (spending.key_from_slice pubkey ≡ some key)
  unfolding p2wpkh_witness_key
  witness_key-eq-some [] key e = cc
  witness_key-eq-some (signature ∷ []) key e = cc
  witness_key-eq-some (signature ∷ pubkey ∷ more ∷ rest) key e = cc
  witness_key-eq-some (signature ∷ pubkey ∷ []) key e =
      elim (Bool-cases (spending.is_signature signature)) [
        | inl is ↦ (signature, pubkey, refl, is, ground (arith, e, is))
        | inr other ↦ absurd (ground (arith, e, other))
      ]

  key_is_owners :
      (key token : K) (receipt_pubkey : K)
      → (keys.same key token || keys.same key receipt_pubkey) ≡ true
      → receipt_key tweaks (receipt_hash tweaks (empty zero_key)) token ≡ some receipt_pubkey
      → (key ≡ token) ⊎ (receipt_key tweaks (receipt_hash tweaks (empty zero_key)) token ≡ some key)
  key_is_owners key token receipt_pubkey e tweaked = elim (Bool-cases (keys.same key token)) [
    | inl same ↦ inl (keys.same→eq key token same)
    | inr other ↦
        inr (tweaked ∙ ap some (sym (keys.same→eq key receipt_pubkey (ground (arith, e, other)))))
  ]

  handle_p2wpkh_input-IsOwners :
      (input : TxIn) (token : K)
      → handle_p2wpkh_input keys tweaks spending scripts script_kinds same_script zero_key
          input.witness token
        ≡ ok true
      → IsOwners input token none
  unfolding handle_p2wpkh_input
  handle_p2wpkh_input-IsOwners input token e =
      elim (Option-cases (
        p2wpkh_witness_key keys tweaks spending scripts script_kinds same_script zero_key
          input.witness)) [
            | inl nothing ↦ absurd (ground (arith, e, nothing))
            | inr (key, read) ↦
                let (receipt_pubkey, tweaked, e') =
                  >>=-eq-ok
                    (ok_or (receipt_key tweaks (receipt_hash tweaks (empty zero_key)) token)
                      OwnerError.panicked)
                    (λ receipt_pubkey. ok (keys.same key token || keys.same key receipt_pubkey))
                    {b = true} (ground (arith, e, read)) in
                let (signature, pubkey, shape, is_signature, is_key) =
                  witness_key-eq-some input.witness key read in
                (
                  signature,
                  pubkey,
                  key,
                  shape,
                  is_signature,
                  is_key,
                  key_is_owners key token receipt_pubkey (ground (arith, e')) (
                      ok_or-eq-ok (receipt_key tweaks (receipt_hash tweaks (empty zero_key)) token)
                        OwnerError.panicked tweaked),
                )
          ]

  is_owner-IsOwners :
      (input : TxIn) (token : K) (owner_script : Option (List ℕ))
      → is_owner keys tweaks spending scripts script_kinds same_script zero_key input token
          owner_script
        ≡ ok true
      → IsOwners input token owner_script
  unfolding is_owner
  is_owner-IsOwners input token none e = handle_p2wpkh_input-IsOwners input token e
  is_owner-IsOwners input token (some owner_script) e =
      let (script, condition, e') =
        >>=-eq-ok
          (spending_condition keys tweaks spending scripts script_kinds same_script zero_key input
            (script_to_address_type script_kinds owner_script))
          _ e in
      elim (Option-cases script) [
        | inl skipped ↦ absurd (ground (arith, e', skipped))
        | inr (found, is) ↦
            let same : found ≡ owner_script =
              same_script.same→eq found owner_script (ground (arith, e', is)) in
            condition-Reveals crates input (script_to_address_type script_kinds owner_script)
              owner_script (condition ∙ ap ok (is ∙ ap some same))
      ]

  -- The input is one of these.
  abbrev pub IsAmong : TxIn → List TxIn → Type 0
  IsAmong input inputs =
      (before : List TxIn) × (after : List TxIn) × (inputs ≡ before ++ input ∷ after)

  find_owner-IsOwners :
      (inputs : List TxIn) (token : K) (owner_script : Option (List ℕ)) (input : TxIn)
      → find_owner keys tweaks spending scripts script_kinds same_script zero_key inputs token
          owner_script
        ≡ ok (some input)
      → IsAmong input inputs × IsOwners input token owner_script
  unfolding find_owner
  find_owner-IsOwners [] token owner_script input e = cc
  find_owner-IsOwners (i ∷ inputs) token owner_script input e =
      let (found, asked, e') =
        >>=-eq-ok
          (is_owner keys tweaks spending scripts script_kinds same_script zero_key i token
            owner_script)
          _ e in
      elim (Bool-cases found) [
        | inl owns ↦
            let this : i ≡ input = ground (arith, e', owns) in
            (
              ([], inputs, ap (λ x. x ∷ inputs) this),
              subst (λ x. IsOwners x token owner_script) this
                  (is_owner-IsOwners i token owner_script (asked ∙ ap ok owns)),
            )
        | inr other ↦
            let ((before, after, split), owner) =
              find_owner-IsOwners inputs token owner_script input (ground (arith, e', other)) in
            ((i ∷ before, after, ap (λ xs. i ∷ xs) split), owner)
      ]

  -- The owner's script that the storage knows.
  abbrev pub owner_script_of : Option (TokenPubkeyInfo K) → Option (List ℕ)
  owner_script_of none = none
  owner_script_of (some info) = info.owner

  pub find_with-IsOwners :
      (inputs : List TxIn) (token : K) (info : Option (TokenPubkeyInfo K)) (input : TxIn)
      → find_with crates inputs token info ≡ ok (some input)
      → IsAmong input inputs × IsOwners input token (owner_script_of info)
  unfolding find_owner_in_txinputs
  find_with-IsOwners inputs token none input e = find_owner-IsOwners inputs token none input e
  find_with-IsOwners inputs token (some info) input e =
      find_owner-IsOwners inputs token info.owner input e
