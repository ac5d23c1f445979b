-- ===== src/Tests/Owner.antt =====
-- The search for an owner and the checks of announcements and transfers, at concrete values.
use lrc.Common.{
  All, ◌+◌, ℕ, ◌≡◌, true, false, List, [], ◌∷◌, Option, none, some, refl, arith, replicate, ◌⊎◌,
  bytes_eq, bytes_eq_refl, bytes_eq→eq,
}
use lrc.Outcome.{ok, err}
use lrc.Keys.{KeyEq}
use lrc.Tables.{get, put, erase}
use lrc.Proof.{receipt_of, spender_keys}
use lrc.Samples.{proof_of, keys, scripts, kinds}
use lrc.ReceiptKey.{Tweaks}
use lrc.Announcements.Message.{Announcement, token_pubkey_of}
use lrc.Announcements.TokenPubkey.{TokenPubkeyAnnouncement}
use lrc.Owner.{
  TokenPubkeyInfo, TxIn, OwnerError, Spending, from_txin, spending_condition, is_owner, find_owner,
  find_owner_in_txinputs, OwnerCrates, find_with,
}
use lrc.Checks.Isolated.{script_to_address_type}
use lrc.Owner.Laws.{find_owner_in_txinputs_panics}
use lrc.Service.Announcements.{
  AnnouncementStorage, AnnouncingTx, allows_freezes, has_owner, toggle,
  check_tx_freeze_announcement, check_announcements, check_issue_announcement,
}
use lrc.Service.Owned.{IsOwned, HasOwner}
use lrc.Service.Permissions.{Permitted}
use lrc.Service.AnnouncementLaws.{IsStoredIssue, toggles, check_announcements_sound}
use lrc.Service.Freezes.{
  TransferStorage, is_output_frozen, first_frozen, is_sender_frozen, passes_p2tr, ask_for_parent,
  check_parent, check_transfer_input, check_transfer,
}
use lrc.Service.FreezeLaws.{MaySpend, check_transfer_sound}
use lrc.Service.Supply.{check_issue_announcement_wraps}

abbrev bytes : KeyEq (List ℕ)
bytes = record { same = bytes_eq; same_refl = bytes_eq_refl; same→eq = bytes_eq→eq }

-- The hash of 20 bytes repeats the first byte.
abbrev hash160 : List ℕ → List ℕ
hash160 [] = replicate 20 0
hash160 (b ∷ bs) = replicate 20 b

abbrev tweaks : Tweaks ℕ
tweaks = record {
  sha256 = λ bs. bs;
  hash160 = hash160;
  serialize = λ k. k ∷ [];
  scalar_from_be_bytes = λ bs. some 0;
  add_exp_tweak = λ k s. some (k + 1);
}

abbrev spending : Spending ℕ
spending = record {
  new_p2pkh = λ hash. replicate 25 0;
  new_p2sh = λ hash. replicate 23 0;
  new_p2wpkh = λ hash. 0 ∷ 20 ∷ hash;
  new_p2wsh = λ hash. 0 ∷ 32 ∷ hash;
  is_p2tr = λ script. false;
  is_signature = λ bs. true;
  key_from_slice = λ bs. some 7;
  get_tx_out = λ id vout. some none;
}

abbrev crates : OwnerCrates ℕ
crates = record {
  keys = keys;
  tweaks = tweaks;
  spending = spending;
  scripts = scripts;
  script_kinds = kinds;
  same_script = bytes;
  zero_key = 2;
}

abbrev input_of : List (List ℕ) → ℕ → TxIn
input_of witness id = record { witness = witness; script_sig = []; txid = id ∷ []; vout = 0 }

abbrev owner_script : List ℕ
owner_script = 0 ∷ 20 ∷ replicate 20 5

abbrev announcement : TokenPubkeyAnnouncement ℕ
announcement = record {
  token_pubkey = 7;
  name = 65 ∷ 66 ∷ 67 ∷ [];
  symbol = 65 ∷ 66 ∷ 67 ∷ [];
  decimal = 2;
  max_supply = 1000;
  is_freezable = true;
}

abbrev info_of : List ℕ → TokenPubkeyInfo ℕ
info_of script = record {
  announcement = some announcement;
  total_supply = 200;
  owner = some script;
  logo_url = none;
}

abbrev stranger : TxIn
stranger = input_of ((48 ∷ []) ∷ (4 ∷ []) ∷ []) 1

abbrev owner : TxIn
owner = input_of ((48 ∷ []) ∷ (5 ∷ []) ∷ []) 2

stranger_is_no_owner :
    is_owner keys tweaks spending scripts kinds bytes 2 stranger 7 (some owner_script) ≡ ok false
unfolding is_owner spending_condition from_txin script_to_address_type bytes_eq
stranger_is_no_owner = refl

-- A stranger's input, one without a witness, and the owner's.
find_owner_in_txinputs_panics_example :
    find_with crates (stranger ∷ input_of [] 3 ∷ owner ∷ []) 7 (some (info_of owner_script))
    ≡ err OwnerError.panicked
unfolding script_to_address_type
find_owner_in_txinputs_panics_example =
    find_owner_in_txinputs_panics keys tweaks spending scripts kinds bytes 2 (stranger ∷ [])
      (owner ∷ []) (input_of [] 3) 7 (info_of owner_script) owner_script refl refl
      (stranger_is_no_owner, tt) (omega arith)

abbrev storage : AnnouncementStorage ℕ
storage = record {
  get_token_pubkey_info = λ k. some (some (info_of owner_script));
  get_lrc20_transaction_by_id = λ id. some false;
  toggle_proof_freeze = λ id vout. true;
}

abbrev tx : AnnouncingTx
tx = record { txid = 9 ∷ []; input = stranger ∷ owner ∷ [] }

abbrev freeze : Announcement ℕ
freeze =
    Announcement.tx_freeze
      (record { token_pubkey = 7; outpoint = record { txid = 1 ∷ []; vout = 4 } })

freeze_accepted : check_announcements storage crates tx freeze ≡ ok (true, (1 ∷ [], 4) ∷ [])
unfolding check_announcements check_tx_freeze_announcement has_owner toggle allows_freezes is_owner
    spending_condition from_txin script_to_address_type find_owner find_owner_in_txinputs bytes_eq
freeze_accepted = refl

check_announcements_sound_example :
    ((1 ∷ [], 4) ∷ [] ≡ toggles freeze)
    × (IsStoredIssue storage crates tx freeze
        ⊎ ((info : Option (TokenPubkeyInfo ℕ)) × HasOwner storage crates tx.input 7 info
            × Permitted info freeze))
unfolding token_pubkey_of
check_announcements_sound_example =
    check_announcements_sound storage crates tx freeze ((1 ∷ [], 4) ∷ []) freeze_accepted

owned : IsOwned storage crates tx.input 7 (some (info_of owner_script))
unfolding find_owner_in_txinputs find_owner is_owner spending_condition from_txin
    script_to_address_type bytes_eq
owned = record { stored = refl; owner_input = owner; found = refl }

-- Of at most 1000 tokens 200 are issued, and 2^128 - 100 more.
check_issue_announcement_wraps_example :
    check_issue_announcement storage crates tx
      (record { token_pubkey = 7; amount = 340282366920938463463374607431768211356 })
    ≡ ok true
check_issue_announcement_wraps_example =
    check_issue_announcement_wraps storage crates tx
      (record { token_pubkey = 7; amount = 340282366920938463463374607431768211356 })
      (info_of owner_script) announcement 100 refl owned refl (omega arith) (omega arith)
      (omega arith)

-- Nothing is frozen; the storage has no transaction.
abbrev transfer_storage : TransferStorage ℕ ℕ
transfer_storage = record {
  get_token_pubkey_info = λ k. some (some (info_of owner_script));
  is_proof_frozen = λ id vout. some false;
  is_pubkey_frozen = λ k token. some false;
  get_lrc20_transaction_by_id = λ id. some false;
  get_raw_transaction = λ id. none;
  check_p2tr_proof = λ script proof. false;
}

abbrev no_txs : List (List ℕ × ℕ)
no_txs = []

-- The parent of the second input is asked for at the peer 5.
transfer_accepted :
    check_transfer 2 transfer_storage keys bytes
      (some 5)
      no_txs
      (stranger ∷ owner ∷ [])
      ((1, proof_of 3) ∷ [])
      []
    ≡ ok (true, (5, (2 ∷ []) ∷ []) ∷ [])
unfolding check_transfer check_transfer_input check_parent is_output_frozen is_sender_frozen
    first_frozen passes_p2tr ask_for_parent allows_freezes receipt_of spender_keys get put erase
transfer_accepted = refl

check_transfer_sound_example :
    All
      (MaySpend 2 transfer_storage keys bytes (some 5) no_txs (stranger ∷ owner ∷ []))
      ((1, proof_of 3) ∷ [])
check_transfer_sound_example =
    check_transfer_sound 2 transfer_storage keys bytes (some 5) no_txs (stranger ∷ owner ∷ [])
      ((1, proof_of 3) ∷ []) [] ((5, (2 ∷ []) ∷ []) ∷ []) transfer_accepted
