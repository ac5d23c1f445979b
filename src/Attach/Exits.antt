-- ===== src/Attach/Exits.antt =====
-- Transactions that wait for an exit of Spark keep waiting.
use lrc.Common.{◌≡◌, ◌⊎◌, Bool, true, false, List, Option, none}
use lrc.Keys.{KeyEq}
use lrc.Tables.{contains, get, or_empty}
use lrc.Attach.{GraphBuilder, Pass, Kind, spark_exit}
use lrc.Attach

module _ {T Tx : Type 0} (keys : KeyEq T) (txid : Tx → T) (kind : Tx → Kind T)
    (is_stored : T → Option Bool) (order : List T → List T) (exit child : T) where
  -- The child is noted as waiting for the exit, under whose id no transaction is kept waiting.
  pub record StillWaits (s : GraphBuilder T Tx) : Type 0 where
    pub noted : contains keys child (or_empty (get keys exit s.inverse_deps)) ≡ true
    pub unstored : get keys exit s.stored_txs ≡ none

  -- Only exits have the exit's id.
  abbrev pub OnlyExits : Tx → Type 0
  OnlyExits tx = (kind tx ≡ spark_exit) ⊎ (keys.same (txid tx) exit ≡ false)

  abbrev Kept : Pass T Tx → Type 0
  Kept p = StillWaits p.builder
