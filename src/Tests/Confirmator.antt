-- ===== src/Tests/Confirmator.antt =====
-- A new block and a reorganization at concrete values: hashes and transaction ids are numbers.
use lrc.Confirmator.Waiting.{contains_key-handle_tx_to_confirm, is_confirmed}
use lrc.Common.{
  ℕ, ◌≡◌, ◌<◌, ◌==◌, [], ◌∷◌, Option, none, some, length, if◌then◌else◌, arith, refl, false,
}
use lrc.Outcome.{ok}
use lrc.Samples.{keys}
use lrc.Confirmator.{
  BlockInfo, Block, TxConfirmator, handle_reorg, handle_new_block, reorganization, remove_all,
  contains_key, remove, waiting, new_confirmed_txs, confirm_block, confirm_waiting, index_block,
  is_fork, pop_confirmed, back, found, handle_tx_to_confirm,
}
use lrc.Confirmator.Laws.{length-handle_new_block}
use lrc.Confirmator.Reorg.{handle_reorg_lem, orphaned, meets, parts}

-- The block 20 stands beside the block 2, on the block 1.
abbrev parent_of : ℕ → Option (Option ℕ)
parent_of h = if h == 20 then some (some 1) else none

abbrev block_1 : BlockInfo ℕ ℕ
block_1 = record { hash = 1; txs = 10 ∷ [] }

abbrev block_2 : BlockInfo ℕ ℕ
block_2 = record { hash = 2; txs = 11 ∷ 5 ∷ [] }

abbrev confirmator : TxConfirmator ℕ ℕ
confirmator = record {
  queue = (10, 0) ∷ (11, 0) ∷ (12, 0) ∷ [];
  latest_blocks = block_1 ∷ block_2 ∷ [];
}

abbrev block_30 : Block ℕ ℕ
block_30 = record { hash = 30; previousblockhash = some 20; height = 3; txs = [] }

abbrev block_3 : Block ℕ ℕ
block_3 = record { hash = 3; previousblockhash = some 2; height = 3; txs = 12 ∷ [] }

handle_reorg_example : handle_reorg keys keys 3 parent_of confirmator block_30 ≡ record {
  state = record {
    queue = remove_all keys (11 ∷ []) confirmator.queue;
    latest_blocks = block_1 ∷ [];
  };
  sent = reorganization (11 ∷ []) 1 ∷ [];
  outcome = ok tt;
}
unfolding orphaned waiting contains_key
handle_reorg_example =
    handle_reorg_lem keys keys 3 parent_of confirmator block_30 [] (block_2 ∷ []) block_1 refl
      (parts block_2 [] 20 (some 1) block_1 refl refl (meets block_1)) (omega arith) (omega arith)

length-handle_new_block_example :
    length (handle_new_block keys keys 3 parent_of confirmator block_3).state.latest_blocks < 3
length-handle_new_block_example =
    length-handle_new_block keys keys 3 parent_of confirmator block_3 (omega arith)

-- With three confirmations the oldest block's transaction leaves the queue.
confirmed :
    (handle_new_block keys keys 3 parent_of confirmator block_3).state.latest_blocks
    ≡ block_2 ∷ record { hash = 3; txs = 12 ∷ [] } ∷ []
unfolding handle_new_block index_block pop_confirmed confirm_block confirm_waiting new_confirmed_txs
    waiting contains_key remove remove_all back is_fork
confirmed = refl

contains_key-handle_tx_to_confirm_example :
    contains_key keys 11
      (handle_tx_to_confirm keys keys 3 parent_of confirmator 7 11 (found (some 4))).state.queue
    ≡ false
unfolding is_confirmed
contains_key-handle_tx_to_confirm_example =
    contains_key-handle_tx_to_confirm keys keys 3 parent_of confirmator 7 11 (found (some 4))
