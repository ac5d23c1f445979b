-- ===== src/Confirmator/Waiting.antt =====
-- Which transactions wait in the queue of the confirmator.
use lrc.Common.{
  ℕ, ◌≡◌, List, [], ◌∷◌, Option, some, Bool, false, not, leb, inl, inr, Bool-cases, refl, arith,
  none, true,
}
use lrc.Keys.{KeyEq}
use lrc.Confirmator.{
  TxConfirmator, TxInfo, found, contains_key, remove, remove_all, handle_tx_to_confirm,
  new_confirmed_txs, or_insert, not_found, failed,
}

module _ {T : Type 0} (txids : KeyEq T) where
  contains_key-remove :
      (t : T) (queue : List (T × ℕ)) → contains_key txids t (remove txids t queue) ≡ false
  unfolding contains_key remove
  contains_key-remove t [] = refl
  contains_key-remove t (e ∷ queue) = elim (Bool-cases (txids.same t e.0)) [
    | inl same ↦ ground (arith, same, contains_key-remove t queue)
    | inr other ↦ ground (arith, other, contains_key-remove t queue)
  ]

  contains_key-or_insert :
      (t : T) (now : ℕ) (queue : List (T × ℕ))
      → contains_key txids t (or_insert txids t now queue) ≡ true
  unfolding contains_key or_insert
  contains_key-or_insert t now queue = elim (Bool-cases (contains_key txids t queue)) [
    | inl there ↦ ground (arith, there)
    | inr missing ↦ ground (arith, missing, txids.same_refl t)
  ]

-- What the client answers of a transaction with enough confirmations.
unfoldable pub is_confirmed : ℕ → TxInfo → Bool
is_confirmed confirmations_number (found (some confirmations)) =
    leb confirmations_number confirmations
is_confirmed _ _ = false

module _ {H T : Type 0} (hashes : KeyEq H) (txids : KeyEq T) (confirmations_number : ℕ)
    (get_block_info : H → Option (Option H)) where
  -- After a transaction was given to the confirmator it waits in the queue, exactly unless the
  -- client answers that it has enough confirmations; also where the client fails.
  pub contains_key-handle_tx_to_confirm :
      (s : TxConfirmator H T) (now : ℕ) (txid : T) (info : TxInfo)
      → contains_key txids txid
          (handle_tx_to_confirm hashes txids confirmations_number get_block_info s now txid
            info).state.queue
        ≡ not (is_confirmed confirmations_number info)
  unfolding handle_tx_to_confirm is_confirmed contains_key new_confirmed_txs remove_all
  contains_key-handle_tx_to_confirm s now txid not_found =
      contains_key-or_insert txids txid now s.queue
  contains_key-handle_tx_to_confirm s now txid failed =
      contains_key-or_insert txids txid now s.queue
  contains_key-handle_tx_to_confirm s now txid (found none) =
      contains_key-or_insert txids txid now s.queue
  contains_key-handle_tx_to_confirm s now txid (found (some confirmations)) =
      let added = contains_key-or_insert txids txid now s.queue in
      let removed = contains_key-remove txids txid (or_insert txids txid now s.queue) in
      elim (Bool-cases (leb confirmations_number confirmations)) [
        | inl enough ↦ ground (arith, enough, removed)
        | inr few ↦ ground (arith, few, added)
      ]
