-- ===== src/Confirmator.antt =====
-- crates/tx-confirm/src/lib.rs: transactions wait for their confirmations. `H` is the type of block
-- hashes, `T` that of transaction ids; times are numbers; the Bitcoin client is a parameter.
pub mod Laws
pub mod Reorg
pub mod Waiting
use lrc.Common.{
  ℕ, ◌+◌, ◌-◌, ◌%◌, ◌^◌, ◌==◌, Bool, false, not, ltb, if◌then◌else◌, List, [], ◌∷◌, ◌++◌, Option,
  none, some, length, ◌||◌, leb,
}
use lrc.Outcome.{Result, ok, err}
use lrc.Keys.{KeyEq}
use mathlib.Core.List.{reverse}

pub record BlockInfo (H T : Type 0) : Type 0 where
  pub hash : H
  pub txs : List T

-- The parts of `GetBlockTxResult` that are read.
pub record Block (H T : Type 0) : Type 0 where
  pub hash : H
  pub previousblockhash : Option H
  pub height : ℕ
  pub txs : List T

-- What is sent to the controller.
pub data ControllerMessage (T : Type 0) : Type 0 where
  reorganization : List T → ℕ → ControllerMessage T
  mined_txs : List T → ControllerMessage T
  confirmed_txs : List T → ControllerMessage T

pub data ConfirmError : Type 0 where
  fork_length_is_too_big : ConfirmError
  previous_block_hash_is_missing : ConfirmError
  client : ConfirmError

-- `queue` has the time at which a transaction came; the oldest block is first in `latest_blocks`.
pub record TxConfirmator (H T : Type 0) : Type 0 where
  pub queue : List (T × ℕ)
  pub latest_blocks : List (BlockInfo H T)

-- The state after a handler, what it sent, and whether it failed.
pub record Step (H T : Type 0) : Type 0 where
  pub state : TxConfirmator H T
  pub sent : List (ControllerMessage T)
  pub outcome : Result ConfirmError (Unit {0})

-- What `get_raw_transaction_info` answers: error -5, another error, or the confirmations.
pub data TxInfo : Type 0 where
  not_found : TxInfo
  failed : TxInfo
  found : Option ℕ → TxInfo

module _ {T : Type 0} (txids : KeyEq T) where
  unfoldable pub contains_key : T → List (T × ℕ) → Bool
  contains_key t [] = false
  contains_key t (e ∷ queue) = txids.same t e.0 || contains_key t queue

  -- `entry(txid).or_insert(now)`
  unfoldable pub or_insert : T → ℕ → List (T × ℕ) → List (T × ℕ)
  or_insert t now queue = if contains_key t queue then queue else (t, now) ∷ queue

  unfoldable pub remove : T → List (T × ℕ) → List (T × ℕ)
  remove t [] = []
  remove t (e ∷ queue) = if txids.same t e.0 then remove t queue else e ∷ remove t queue

  unfoldable pub remove_all : List T → List (T × ℕ) → List (T × ℕ)
  remove_all [] queue = queue
  remove_all (t ∷ ts) queue = remove_all ts (remove t queue)

  unfoldable pub waiting : List (T × ℕ) → List T → List T
  waiting queue [] = []
  waiting queue (t ∷ ts) = if contains_key t queue then t ∷ waiting queue ts else waiting queue ts

-- `handle_mined_txs`: nothing is sent for no transactions.
unfoldable pub handle_mined_txs : {T : Type 0} → List T → List (ControllerMessage T)
handle_mined_txs [] = []
handle_mined_txs (t ∷ ts) = mined_txs (t ∷ ts) ∷ []

-- `VecDeque::back`
unfoldable pub back : {A : Type 0} → List A → Option A
back [] = none
back (x ∷ xs) = elim xs [ [] ↦ some x | _ ↦ back xs ]

module _ {H T : Type 0} (hashes : KeyEq H) (txids : KeyEq T) (confirmations_number : ℕ)
    (get_block_info : H → Option (Option H)) where
  abbrev pub block_info : Block H T → BlockInfo H T
  block_info block = record { hash = block.hash; txs = block.txs }

  unfoldable pub new_confirmed_txs : TxConfirmator H T → List T → Step H T
  new_confirmed_txs s ids = record {
    state = record { queue = remove_all txids ids s.queue; latest_blocks = s.latest_blocks };
    sent = confirmed_txs ids ∷ [];
    outcome = ok tt;
  }

  -- The confirmed transactions are only sent when there are some.
  unfoldable pub confirm_waiting : TxConfirmator H T → List T → Step H T
  confirm_waiting s [] = record { state = s; sent = []; outcome = ok tt }
  confirm_waiting s (t ∷ ts) = new_confirmed_txs s (t ∷ ts)

  -- The oldest block has its confirmations.
  unfoldable pub confirm_block : TxConfirmator H T → BlockInfo H T → Step H T
  confirm_block s block = confirm_waiting s (waiting txids s.queue block.txs)

  -- The end of `handle_new_block`: `latest_blocks` with the new block is given.
  unfoldable pub pop_confirmed : List (T × ℕ) → List (BlockInfo H T) → Step H T
  pop_confirmed queue [] = record {
    state = record { queue = queue; latest_blocks = [] };
    sent = [];
    outcome = ok tt;
  }
  pop_confirmed queue (b ∷ blocks) =
      if length (b ∷ blocks) == confirmations_number
      then confirm_block (record { queue = queue; latest_blocks = blocks }) b
      else record {
        state = record { queue = queue; latest_blocks = b ∷ blocks };
        sent = [];
        outcome = ok tt;
      }

  unfoldable pub index_block : TxConfirmator H T → Block H T → Step H T
  index_block s block =
      let popped = pop_confirmed s.queue (s.latest_blocks ++ (block_info block ∷ [])) in
      record {
        state = popped.state;
        sent = handle_mined_txs (waiting txids s.queue block.txs) ++ popped.sent;
        outcome = popped.outcome;
      }

  -- `new_indexing_height -= 1` on a usize, which wraps in a release build.
  abbrev pub before : ℕ → ℕ
  before height = (height + (2 ^ 64 - 1)) % 2 ^ 64

  -- The loop of `handle_reorg`, on the blocks from the newest on: the blocks left, and the
  -- transactions of the orphan blocks with the height.
  unfoldable pub unwind :
      List (T × ℕ)
      → List (BlockInfo H T)
      → Option H
      → ℕ
      → List T
      → List (BlockInfo H T) × Result ConfirmError (List T × ℕ)
  unwind queue [] prev height reorged = ([], err fork_length_is_too_big)
  unwind queue (b ∷ blocks) none height reorged = (blocks, err previous_block_hash_is_missing)
  unwind queue (b ∷ blocks) (some current) height reorged =
      if hashes.same b.hash current
      then (b ∷ blocks, ok (reorged, before height))
      else elim (get_block_info current) [
        | none ↦ (blocks, err client)
        | some prev ↦
            unwind queue blocks prev (before height) (reorged ++ waiting txids queue b.txs)
      ]

  abbrev pub finish_reorg :
      List (T × ℕ) → List (BlockInfo H T) × Result ConfirmError (List T × ℕ) → Step H T
  finish_reorg queue (blocks, err e) = record {
    state = record { queue = queue; latest_blocks = reverse blocks };
    sent = [];
    outcome = err e;
  }
  finish_reorg queue (blocks, ok (reorged, height)) = record {
    state = record { queue = remove_all txids reorged queue; latest_blocks = reverse blocks };
    sent = reorganization reorged height ∷ [];
    outcome = ok tt;
  }

  unfoldable pub handle_reorg : TxConfirmator H T → Block H T → Step H T
  handle_reorg s block =
      finish_reorg s.queue
        (unwind s.queue (reverse s.latest_blocks) block.previousblockhash block.height [])

  -- Whether the new block does not follow the newest one that is known.
  unfoldable pub is_fork : Option H → Option (BlockInfo H T) → Bool
  is_fork (some prev) (some last) = not (hashes.same last.hash prev)
  is_fork _ _ = false

  unfoldable pub handle_new_block : TxConfirmator H T → Block H T → Step H T
  handle_new_block s block =
      if is_fork block.previousblockhash (back s.latest_blocks)
      then handle_reorg s block
      else index_block s block

  -- `clean_up_waiting_txs`: `now` is the time, `max_confirmation_time` the longest wait. The code
  -- panics where a transaction came later than `now`, that is, where the clock was set back; such
  -- an argument stands for no run of it.
  unfoldable pub clean_up : ℕ → ℕ → List (T × ℕ) → List (T × ℕ)
  clean_up now max_confirmation_time [] = []
  clean_up now max_confirmation_time (e ∷ queue) =
      if ltb max_confirmation_time (now - e.1)
      then clean_up now max_confirmation_time queue
      else e ∷ clean_up now max_confirmation_time queue

  -- `handle_tx_to_confirm` at the time `now`, with what the Bitcoin client answered.
  unfoldable pub handle_tx_to_confirm : TxConfirmator H T → ℕ → T → TxInfo → Step H T
  handle_tx_to_confirm s now txid info =
      let queue = or_insert txids txid now s.queue in
      let s' : TxConfirmator H T = record { queue = queue; latest_blocks = s.latest_blocks } in
      elim info [
        | not_found ↦ record { state = s'; sent = []; outcome = ok tt }
        | failed ↦ record { state = s'; sent = []; outcome = err client }
        | found none ↦ record { state = s'; sent = []; outcome = ok tt }
        | found (some confirmations) ↦
            let confirmed = new_confirmed_txs s' (txid ∷ []) in
            if leb confirmations_number confirmations
            then record {
              state = confirmed.state;
              sent = handle_mined_txs (txid ∷ []) ++ confirmed.sent;
              outcome = ok tt;
            }
            else record { state = s'; sent = handle_mined_txs (txid ∷ []); outcome = ok tt }
      ]
