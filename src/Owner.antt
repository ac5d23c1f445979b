-- ===== src/Owner.antt =====
-- The owner of a token among the inputs of a transaction: `find_owner_in_txinputs` of
-- crates/tx-check/src/isolated_checks.rs with crates/tx-check/src/script_parser.rs. A panic is an
-- error of its own.
pub mod Laws
pub mod Reveals
pub mod Sound
use lrc.Common.{ℕ, Bool, false, ◌||◌, if◌then◌else◌, List, [], ◌∷◌, Option, none, some, get_elem?}
use lrc.Outcome.{Result, ok, err, ◌>>=◌, ok_or}
use lrc.Keys.{KeyEq}
use lrc.Receipt.{empty}
use lrc.ReceiptKey.{Tweaks, receipt_hash, receipt_key}
use lrc.Announcements.Script.{Scripts, op, push_bytes}
use lrc.Announcements.TokenPubkey.{TokenPubkeyAnnouncement}
use lrc.Checks.{ScriptKinds}
use lrc.Checks.Isolated.{AddressType, p2pkh, p2sh, p2wpkh, p2wsh, p2tr, script_to_address_type}

-- announcements/token_pubkey.rs of crates/types
pub record TokenPubkeyInfo (K : Type 0) : Type 0 where
  pub announcement : Option (TokenPubkeyAnnouncement K)
  pub total_supply : ℕ
  pub owner : Option (List ℕ)
  pub logo_url : Option (List ℕ)

-- `bitcoin::TxIn` without its sequence
pub record TxIn : Type 0 where
  pub witness : List (List ℕ)
  pub script_sig : List ℕ
  pub txid : List ℕ
  pub vout : ℕ

pub data ScriptParseError : Type 0 where
  unsupported_script : ScriptParseError
  invalid_instruction : ScriptParseError
  not_data_push : ScriptParseError
  insufficient_instructions : ℕ → ScriptParseError
  missing_witness_redeem_script : ScriptParseError

pub data OwnerError : Type 0 where
  script_parse : ScriptParseError → OwnerError
  client : OwnerError
  panicked : OwnerError

-- The scripts of the bitcoin crate that pay to a hash, `ecdsa::Signature::from_slice` as whether it
-- succeeds, `PublicKey::from_slice`, and `get_tx_out` of the Bitcoin client: it fails, has no such
-- output, or has one with its script, which may be unreadable.
pub record Spending (K : Type 0) : Type 0 where
  pub new_p2pkh : List ℕ → List ℕ
  pub new_p2sh : List ℕ → List ℕ
  pub new_p2wpkh : List ℕ → List ℕ
  pub new_p2wsh : List ℕ → List ℕ
  pub is_p2tr : List ℕ → Bool
  pub is_signature : List ℕ → Bool
  pub key_from_slice : List ℕ → Option K
  pub get_tx_out : List ℕ → ℕ → Option (Option (Option (List ℕ)))

-- The last element, of `witness.last()` and of an iterator
unfoldable pub last : {A : Type 0} → List A → Option A
last [] = none
last (x ∷ []) = some x
last (x ∷ y ∷ xs) = last (y ∷ xs)

module _ {K : Type 0} (keys : KeyEq K) (tweaks : Tweaks K) (spending : Spending K)
    (scripts : Scripts) (script_kinds : ScriptKinds) (same_script : KeyEq (List ℕ))
    (zero_key : K) where
  open spending use {
    new_p2pkh, new_p2sh, new_p2wpkh, new_p2wsh, is_p2tr, is_signature, key_from_slice, get_tx_out,
  }

  -- `P2WPKHWitness::from_witness`: its public key
  unfoldable pub p2wpkh_witness_key : List (List ℕ) → Option K
  p2wpkh_witness_key [] = none
  p2wpkh_witness_key (signature ∷ []) = none
  p2wpkh_witness_key (signature ∷ pubkey ∷ []) =
      if is_signature signature then key_from_slice pubkey else none
  p2wpkh_witness_key (signature ∷ pubkey ∷ more ∷ rest) = none

  unfoldable pub handle_p2wpkh_input : List (List ℕ) → K → Result OwnerError Bool
  handle_p2wpkh_input witness token_pubkey = elim (p2wpkh_witness_key witness) [
    | none ↦ ok false
    | some witness_public_key ↦ do
      receipt_pubkey ←
          ok_or (receipt_key tweaks (receipt_hash tweaks (empty zero_key)) token_pubkey) panicked
      ok (keys.same witness_public_key token_pubkey || keys.same witness_public_key receipt_pubkey)
  ]

  -- The script that pays to what the last instruction of the input pushes.
  unfoldable pub handle_legacy_address_type : TxIn → AddressType → Result OwnerError (List ℕ)
  handle_legacy_address_type tx_in address_type = do
    instructions ← ok_or (scripts.instructions tx_in.script_sig) (script_parse invalid_instruction)
    last_instruction ← ok_or (last instructions) (script_parse (insufficient_instructions 0))
    elim last_instruction [
      | op code ↦ err (script_parse not_data_push)
      | push_bytes bytes ↦ elim address_type [
        | p2pkh ↦ ok (new_p2pkh (tweaks.hash160 bytes))
        | p2sh ↦ ok (new_p2sh (tweaks.hash160 bytes))
        | p2wpkh ↦ err (script_parse unsupported_script)
        | p2wsh ↦ err (script_parse unsupported_script)
        | p2tr ↦ err (script_parse unsupported_script)
      ]
    ]

  -- `SpendingCondition::from_txin` and `into_script`. `witness[1]` panics out of range.
  unfoldable pub from_txin : TxIn → AddressType → Result OwnerError (List ℕ)
  from_txin tx_in address_type = elim address_type [
    | p2wpkh ↦ elim (get_elem? tx_in.witness 1) [
      | none ↦ err panicked
      | some pubkey ↦ ok (new_p2wpkh (tweaks.hash160 pubkey))
    ]
    | p2wsh ↦ elim (last tx_in.witness) [
      | none ↦ err (script_parse missing_witness_redeem_script)
      | some redeem_script ↦ ok (new_p2wsh (tweaks.sha256 redeem_script))
    ]
    | p2pkh ↦ handle_legacy_address_type tx_in p2pkh
    | p2sh ↦ handle_legacy_address_type tx_in p2sh
    | p2tr ↦ err (script_parse unsupported_script)
  ]

  -- The script that the input spends, by the type of the owner's script; none is `continue`.
  unfoldable pub spending_condition : TxIn → AddressType → Result OwnerError (Option (List ℕ))
  spending_condition input AddressType.p2tr = elim (get_tx_out input.txid input.vout) [
    | none ↦ err client
    | some none ↦ ok none
    | some (some none) ↦ err client
    | some (some (some script)) ↦
        if is_p2tr script then ok (some script) else err (script_parse unsupported_script)
  ]
  spending_condition input AddressType.p2pkh = from_txin input p2pkh >>= λ script. ok (some script)
  spending_condition input AddressType.p2sh = from_txin input p2sh >>= λ script. ok (some script)
  spending_condition input AddressType.p2wpkh =
      from_txin input p2wpkh >>= λ script. ok (some script)
  spending_condition input AddressType.p2wsh = from_txin input p2wsh >>= λ script. ok (some script)

  -- Whether the input is the owner's.
  unfoldable pub is_owner : TxIn → K → Option (List ℕ) → Result OwnerError Bool
  is_owner input token_pubkey none = handle_p2wpkh_input input.witness token_pubkey
  is_owner input token_pubkey (some owner_script) = do
    script ← spending_condition input (script_to_address_type script_kinds owner_script)
    elim script [ none ↦ ok false | some found ↦ ok (same_script.same found owner_script) ]

  unfoldable pub find_owner : List TxIn → K → Option (List ℕ) → Result OwnerError (Option TxIn)
  find_owner [] token_pubkey owner_script = ok none
  find_owner (input ∷ inputs) token_pubkey owner_script = do
    found ← is_owner input token_pubkey owner_script
    let rest = find_owner inputs token_pubkey owner_script
    if found then ok (some input) else rest

  unfoldable pub find_owner_in_txinputs :
      List TxIn → K → Option (TokenPubkeyInfo K) → Result OwnerError (Option TxIn)
  find_owner_in_txinputs inputs token_pubkey none = find_owner inputs token_pubkey none
  find_owner_in_txinputs inputs token_pubkey (some info) = find_owner inputs token_pubkey info.owner

-- What the search takes from other crates, with `ZERO_PUBLIC_KEY`.
pub record OwnerCrates (K : Type 0) : Type 0 where
  pub keys : KeyEq K
  pub tweaks : Tweaks K
  pub spending : Spending K
  pub scripts : Scripts
  pub script_kinds : ScriptKinds
  pub same_script : KeyEq (List ℕ)
  pub zero_key : K

abbrev pub find_with :
    {K : Type 0}
    → OwnerCrates K
    → List TxIn
    → K
    → Option (TokenPubkeyInfo K)
    → Result OwnerError (Option TxIn)
find_with c =
    find_owner_in_txinputs c.keys c.tweaks c.spending c.scripts c.script_kinds c.same_script
      c.zero_key
