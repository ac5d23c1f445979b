-- ===== src/Confirmator/Laws.antt =====
-- What a new block does to the confirmator.
use mathlib.Core.List.{reverse}
use lrc.Outcome.{Result, ok, err}
use lrc.Common.Words.{length-reverse}
use lrc.Common.{
  ℕ, ◌≤◌, List, [], ◌∷◌, ◌++◌, Option, none, some, length, arith, inl, inr, Bool-cases,
  Option-cases, ◌<◌, ◌==◌, refl, ap, ◌≡◌, length-append,
}
use lrc.Keys.{KeyEq}
use lrc.Confirmator.{
  BlockInfo, waiting, unwind, before, pop_confirmed, confirm_block, new_confirmed_txs,
  TxConfirmator, confirm_waiting, Block, handle_reorg, finish_reorg, handle_new_block, index_block,
  is_fork, back, block_info, ConfirmError,
}

module _ {H T : Type 0} (hashes : KeyEq H) (txids : KeyEq T) (confirmations_number : ℕ)
    (get_block_info : H → Option (Option H)) where
  length-unwind :
      (queue : List (T × ℕ)) (blocks : List (BlockInfo H T)) (prev : Option H) (height : ℕ)
      (reorged : List T)
      → length
          (unwind hashes txids confirmations_number get_block_info queue blocks prev height
            reorged).0
        ≤ length blocks
  unfolding unwind
  length-unwind queue [] prev height reorged = omega arith
  length-unwind queue (b ∷ blocks) none height reorged = omega arith
  length-unwind queue (b ∷ blocks) (some current) height reorged =
      elim (Bool-cases (hashes.same b.hash current)) [
        | inl e ↦ ground (arith, e)
        | inr e ↦ elim (Option-cases (get_block_info current)) [
          | inl gone ↦ ground (arith, e, gone)
          | inr (before_it, answer) ↦
              let rec =
                length-unwind queue blocks before_it
                  (before hashes txids confirmations_number get_block_info height)
                  (reorged ++ waiting txids queue b.txs) in
              ground (arith, e, answer, rec)
        ]
      ]

  confirm_waiting_latest_blocks :
      (s : TxConfirmator H T) (ts : List T)
      → (confirm_waiting hashes txids confirmations_number get_block_info s ts).state.latest_blocks
        ≡ s.latest_blocks
  unfolding confirm_waiting new_confirmed_txs
  confirm_waiting_latest_blocks s [] = refl
  confirm_waiting_latest_blocks s (t ∷ ts) = refl

  length-pop_confirmed :
      (queue : List (T × ℕ)) (blocks : List (BlockInfo H T))
      → length blocks ≤ confirmations_number
      → 0 < confirmations_number
      → length
          (pop_confirmed hashes txids confirmations_number get_block_info queue
            blocks).state.latest_blocks
        < confirmations_number
  unfolding pop_confirmed confirm_block
  length-pop_confirmed queue [] fits some_number = some_number
  length-pop_confirmed queue (b ∷ blocks) fits some_number =
      let popped =
        confirm_waiting_latest_blocks (record { queue = queue; latest_blocks = blocks })
          (waiting txids queue b.txs) in
      elim (Bool-cases (length (b ∷ blocks) == confirmations_number)) [
        | inl e ↦ ground (arith, e, ap length popped)
        | inr e ↦ ground (arith, e)
      ]

  length-handle_reorg :
      (s : TxConfirmator H T) (block : Block H T)
      → length
          (handle_reorg hashes txids confirmations_number get_block_info s
            block).state.latest_blocks
        ≤ length s.latest_blocks
  unfolding handle_reorg
  length-handle_reorg s block =
      let back_to =
        length-unwind s.queue (reverse s.latest_blocks) block.previousblockhash block.height [] in
      go
        (unwind hashes txids confirmations_number get_block_info s.queue (reverse s.latest_blocks)
          block.previousblockhash block.height [])
        (omega (arith, back_to, length-reverse s.latest_blocks))
    where
      go :
          (unwound : List (BlockInfo H T) × Result ConfirmError (List T × ℕ))
          → length unwound.0 ≤ length s.latest_blocks
          → length
              (finish_reorg hashes txids confirmations_number get_block_info s.queue
                unwound).state.latest_blocks
            ≤ length s.latest_blocks
      go (blocks, err e) fits = omega (arith, length-reverse blocks)
      go (blocks, ok (reorged, height)) fits = omega (arith, length-reverse blocks)

  -- A new block keeps fewer blocks than the number of confirmations in `latest_blocks`, also when
  -- it starts a reorganization and when that fails.
  pub length-handle_new_block :
      (s : TxConfirmator H T) (block : Block H T)
      → length s.latest_blocks < confirmations_number
      → length
          (handle_new_block hashes txids confirmations_number get_block_info s
            block).state.latest_blocks
        < confirmations_number
  unfolding handle_new_block index_block
  length-handle_new_block s block fits =
      elim (Bool-cases (
        is_fork hashes txids confirmations_number get_block_info block.previousblockhash
          (back s.latest_blocks))) [
            | inl e ↦ ground (arith, e, length-handle_reorg s block)
            | inr e ↦
                let added =
                  length-append s.latest_blocks
                    (block_info hashes txids confirmations_number get_block_info block ∷ []) in
                let popped =
                  length-pop_confirmed s.queue
                    (s.latest_blocks
                      ++ (block_info hashes txids confirmations_number get_block_info block ∷ []))
                    (omega (arith, added, fits)) (omega (arith, fits)) in
                ground (arith, e, popped)
          ]
