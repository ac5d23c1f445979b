-- ===== src/Owner/Laws.antt =====
-- What stops the search for the owner.
use lrc.Common.{
  ℕ, ◌<◌, ◌≡◌, Bool, false, List, [], ◌∷◌, ◌++◌, Option, none, some, get_elem?, length, All, arith,
  refl,
}
use lrc.Outcome.{ok, err}
use lrc.Keys.{KeyEq}
use lrc.ReceiptKey.{Tweaks}
use lrc.Announcements.Script.{Scripts}
use lrc.Checks.{ScriptKinds}
use lrc.Checks.Isolated.{AddressType, script_to_address_type}
use lrc.Owner.{
  TokenPubkeyInfo, TxIn, OwnerError, Spending, from_txin, spending_condition, is_owner, find_owner,
  find_owner_in_txinputs,
}

get_elem?_short : {A : Type 0} (xs : List A) → length xs < 2 → get_elem? xs 1 ≡ none
get_elem?_short [] h = refl
get_elem?_short (x ∷ []) h = refl
get_elem?_short (x ∷ y ∷ xs) h = absurd (omega (arith, h))

module _ {K : Type 0} (keys : KeyEq K) (tweaks : Tweaks K) (spending : Spending K)
    (scripts : Scripts) (script_kinds : ScriptKinds) (same_script : KeyEq (List ℕ))
    (zero_key : K) where
  abbrev pub Owns : K → Option (List ℕ) → Bool → TxIn → Type 0
  Owns token_pubkey owner_script answer input =
      is_owner keys tweaks spending scripts script_kinds same_script zero_key input token_pubkey
        owner_script
      ≡ ok answer

  -- An input that makes an error stops the search, whatever comes behind it.
  find_owner-append-err :
      (before after : List TxIn) (bad : TxIn) (token_pubkey : K) (owner_script : Option (List ℕ))
      (e : OwnerError)
      → All (Owns token_pubkey owner_script false) before
      → is_owner keys tweaks spending scripts script_kinds same_script zero_key bad token_pubkey
          owner_script
        ≡ err e
      → find_owner keys tweaks spending scripts script_kinds same_script zero_key
          (before ++ bad ∷ after)
          token_pubkey
          owner_script
        ≡ err e
  unfolding find_owner
  find_owner-append-err [] after bad k script e h failed = rw failed refl
  find_owner-append-err (i ∷ before) after bad k script e (other, h) failed =
      rw (other, find_owner-append-err before after bad k script e h failed) refl

  spending_condition_panics :
      (bad : TxIn)
      → length bad.witness < 2
      → spending_condition keys tweaks spending scripts script_kinds same_script zero_key bad
          AddressType.p2wpkh
        ≡ err OwnerError.panicked
  unfolding spending_condition from_txin
  spending_condition_panics bad short = ground (arith, get_elem?_short bad.witness short)

  is_owner-err :
      (bad : TxIn) (token_pubkey : K) (owner_script : List ℕ) (t : AddressType) (e : OwnerError)
      → script_to_address_type script_kinds owner_script ≡ t
      → spending_condition keys tweaks spending scripts script_kinds same_script zero_key bad t
        ≡ err e
      → is_owner keys tweaks spending scripts script_kinds same_script zero_key bad token_pubkey
          (some owner_script)
        ≡ err e
  unfolding is_owner
  is_owner-err bad k script t e kind failed = rw (kind, failed) refl

  -- Where the owner of a token has a P2WPKH script, and an input with fewer than two elements in its
  -- witness stands behind inputs that are others', the search panics, whatever inputs follow.
  pub find_owner_in_txinputs_panics :
      (before after : List TxIn) (bad : TxIn) (token_pubkey : K) (info : TokenPubkeyInfo K)
      (owner_script : List ℕ)
      → info.owner ≡ some owner_script
      → script_to_address_type script_kinds owner_script ≡ AddressType.p2wpkh
      → All (Owns token_pubkey (some owner_script) false) before
      → length bad.witness < 2
      → find_owner_in_txinputs keys tweaks spending scripts script_kinds same_script zero_key
          (before ++ bad ∷ after)
          token_pubkey
          (some info)
        ≡ err OwnerError.panicked
  unfolding find_owner_in_txinputs
  find_owner_in_txinputs_panics before after bad k info script has kind others short = rw has (
      find_owner-append-err before after bad k (some script) OwnerError.panicked others (
        is_owner-err bad k script AddressType.p2wpkh OwnerError.panicked kind
          (spending_condition_panics bad short)))
