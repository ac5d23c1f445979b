-- ===== src/Checks/Amounts.antt =====
-- crates/tx-check/src/isolated_checks.rs: amounts by token and the conservation rule.
use lrc.Common.{
  ℕ, ◌+◌, ◌^◌, ◌==◌, Bool, true, false, ◌&&◌, ◌||◌, if◌then◌else◌, ltb, List, [], ◌∷◌, Option, none,
  some, map,
}
use lrc.Outcome.{Result, ok, err, ◌>>=◌, ok_or}
use lrc.Keys.{KeyEq}
use lrc.Proof.{ReceiptProof, receipt_of, is_empty_receiptproof}
use lrc.Checks.{ProofForCheck, CheckError, amounts_sum_overflow, conservation_rules_violated}

-- `u128::checked_add`
unfoldable pub checked_add : ℕ → ℕ → Option ℕ
checked_add a b = if ltb (a + b) (2 ^ 128) then some (a + b) else none

-- `HashMap<TokenPubkey, u128>`, as its entries in some order.
abbrev pub TokenSums : Type 0 → Type 0
TokenSums K = List (K × ℕ)

module _ {K : Type 0} (keys : KeyEq K) where
  open keys use {same}

  unfoldable pub get : K → TokenSums K → Option ℕ
  get k [] = none
  get k ((j, s) ∷ m) = if same k j then some s else get k m

  abbrev pub put_back : K × ℕ → Option (TokenSums K) → Option (TokenSums K)
  put_back e none = none
  put_back e (some m) = some (e ∷ m)

  abbrev pub put_sum : K → Option ℕ → TokenSums K → Option (TokenSums K)
  put_sum k none m = none
  put_sum k (some s) m = some ((k, s) ∷ m)

  -- `*map.entry(k).or_insert(0)` becomes its `checked_add` of the amount.
  unfoldable pub add_to : K → ℕ → TokenSums K → Option (TokenSums K)
  add_to k a [] = put_sum k (checked_add 0 a) []
  add_to k a ((j, s) ∷ m) =
      if same k j then put_sum j (checked_add s a) m else put_back (j, s) (add_to k a m)

  abbrev pub has_sum : TokenSums K → K → ℕ → Bool
  has_sum n k s = elim (get k n) [ none ↦ false | some t ↦ s == t ]

  unfoldable pub included : TokenSums K → TokenSums K → Bool
  included [] n = true
  included ((k, s) ∷ m) n = has_sum n k s && included m n

  -- `==` of two maps: they have the same entries.
  unfoldable pub same_sums : TokenSums K → TokenSums K → Bool
  same_sums m n = included m n && included n m

module _ {K V : Type 0} (keys : KeyEq K) (zero_key : K) where
  -- The proofs that the loop of `sum_amount_by_token_pubkey` skips.
  unfoldable pub is_skipped : ReceiptProof K V → Bool
  is_skipped proof =
      is_empty_receiptproof proof || ((receipt_of zero_key proof).token_amount.amount == 0)

  -- The loop, from the sums so far.
  unfoldable pub sum_from : List (ReceiptProof K V) → TokenSums K → Option (TokenSums K)
  sum_from [] m = some m
  sum_from (proof ∷ proofs) m =
      if is_skipped proof
      then sum_from proofs m
      else elim (add_to keys (receipt_of zero_key proof).token_pubkey
          (receipt_of zero_key proof).token_amount.amount m) [
            | none ↦ none
            | some m' ↦ sum_from proofs m'
          ]

  unfoldable pub sum_amount_by_token_pubkey :
      {T : Type 0} → List (ProofForCheck K V T) → Option (TokenSums K)
  sum_amount_by_token_pubkey proofs = sum_from (map (λ p. p.inner) proofs) []

  unfoldable pub check_conservation_rules :
      {PE S T : Type 0}
      → List (ProofForCheck K V S)
      → List (ProofForCheck K V T)
      → Result (CheckError (ReceiptProof K V) PE) (Unit {0})
  check_conservation_rules inputs outputs = do
    input_token_pubkeys ← ok_or (sum_amount_by_token_pubkey inputs) amounts_sum_overflow
    output_token_pubkeys ← ok_or (sum_amount_by_token_pubkey outputs) amounts_sum_overflow
    if same_sums keys input_token_pubkeys output_token_pubkeys
        then ok tt
        else err conservation_rules_violated
