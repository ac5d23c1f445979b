-- ===== src/Confirmator/Reorg.antt =====
-- What a reorganization does to the confirmator when the fork meets a block that it still has.
use mathlib.Core.List.{reverse, reverse-append, reverse-reverse, reverse-cons}
use lrc.Common.{
  ℕ, ◌<◌, ◌^◌, ◌-◌, ◌≡◌, List, [], ◌∷◌, ◌++◌, Option, some, length, false, append-nil, append_assoc,
  arith, ap, ◌∙◌,
}
use lrc.Common.Words.{length-reverse}
use lrc.Keys.{KeyEq}
use lrc.Outcome.{ok}
use lrc.Confirmator.{
  BlockInfo, waiting, unwind, Block, TxConfirmator, handle_reorg, remove_all, reorganization,
}

module _ {H T : Type 0} (hashes : KeyEq H) (txids : KeyEq T) (confirmations_number : ℕ)
    (get_block_info : H → Option (Option H)) where
  -- The waiting transactions of blocks, in the order of the blocks.
  unfoldable pub orphaned : List (T × ℕ) → List (BlockInfo H T) → List T
  orphaned queue [] = []
  orphaned queue (b ∷ blocks) = waiting txids queue b.txs ++ orphaned queue blocks

  -- The client knows the chain behind `prev`: next to each of the blocks, the newest first, it has
  -- another block, and then comes `meeting`.
  pub data Forked : List (BlockInfo H T) → Option H → BlockInfo H T → Type 0 where
    meets : (meeting : BlockInfo H T) → Forked [] (some meeting.hash) meeting
    parts :
        (b : BlockInfo H T) (blocks : List (BlockInfo H T)) (current : H) (prev : Option H)
        (meeting : BlockInfo H T)
        → hashes.same b.hash current ≡ false
        → get_block_info current ≡ some prev
        → Forked blocks prev meeting
        → Forked (b ∷ blocks) (some current) meeting

  unwind-append :
      (queue : List (T × ℕ)) (dropped kept : List (BlockInfo H T)) (prev : Option H)
      (meeting : BlockInfo H T) (height : ℕ) (reorged : List T)
      → Forked dropped prev meeting
      → length dropped < height
      → height < 2 ^ 64
      → unwind hashes txids confirmations_number get_block_info queue
          (dropped ++ (meeting ∷ kept))
          prev
          height
          reorged
        ≡ (meeting ∷ kept, ok (reorged ++ orphaned queue dropped, height - length dropped - 1))
  unfolding unwind orphaned
  unwind-append queue _ kept _ _ height reorged (meets meeting) low high =
      ground (arith, hashes.same_refl meeting.hash, append-nil reorged)
  unwind-append queue _ kept _ _ height reorged
        (parts b blocks current prev meeting other answer fork) low high =
      let rec =
        unwind-append queue blocks kept prev meeting (height - 1)
          (reorged ++ waiting txids queue b.txs) fork (omega (arith, low))
          (omega (arith, low, high)) in
      ground (
        arith,
        other,
        answer,
        rec,
        append_assoc reorged (waiting txids queue b.txs) (orphaned queue blocks),
      )

  reverse_parts :
      (kept dropped : List (BlockInfo H T)) (meeting : BlockInfo H T)
      → reverse (kept ++ (meeting ∷ dropped)) ≡ reverse dropped ++ (meeting ∷ reverse kept)
  reverse_parts kept dropped meeting =
      reverse-append kept (meeting ∷ dropped)
      ∙ ap (λ bs. bs ++ reverse kept) (reverse-cons meeting dropped)
      ∙ append_assoc (reverse dropped) (meeting ∷ []) (reverse kept)

  -- When the client knows a chain that leaves the latest blocks at the block `meeting`, a
  -- reorganization succeeds: of the latest blocks those up to `meeting` stay, in their order; the
  -- waiting transactions of the dropped ones, of the newest block first, leave the queue and are all
  -- that is sent, with the height of the new block less one and less one for each dropped block. The
  -- height of the new block is above the number of dropped blocks and below 2^64.
  pub handle_reorg_lem :
      (s : TxConfirmator H T) (block : Block H T) (kept dropped : List (BlockInfo H T))
      (meeting : BlockInfo H T)
      → s.latest_blocks ≡ kept ++ (meeting ∷ dropped)
      → Forked (reverse dropped) block.previousblockhash meeting
      → length dropped < block.height
      → block.height < 2 ^ 64
      → handle_reorg hashes txids confirmations_number get_block_info s block ≡ record {
        state = record {
          queue = remove_all txids (orphaned s.queue (reverse dropped)) s.queue;
          latest_blocks = kept ++ (meeting ∷ []);
        };
        sent =
            reorganization (orphaned s.queue (reverse dropped)) (block.height - length dropped - 1)
            ∷ [];
        outcome = ok tt;
      }
  unfolding handle_reorg
  handle_reorg_lem s block kept dropped meeting parted fork low high =
      let unwound =
        unwind-append s.queue (reverse dropped) (reverse kept) block.previousblockhash meeting
          block.height [] fork (omega (arith, low, length-reverse dropped)) high in
      let restored : reverse (meeting ∷ reverse kept) ≡ kept ++ (meeting ∷ []) =
        reverse-cons meeting (reverse kept)
        ∙ ap (λ bs. bs ++ (meeting ∷ [])) (reverse-reverse kept) in
      simp (parted, reverse_parts kept dropped meeting, unwound, restored, length-reverse dropped)
