-- ===== src/Attach/Safety.antt =====
-- `attach_txs` attaches nothing before its parents.
use lrc.Common.{All-Unit, ℕ, ◌≡◌, true, Bool, List, [], ◌∷◌, Option, some}
use lrc.Outcome.{ok}
use lrc.Keys.{KeyEq}
use lrc.Attach.{GraphBuilder, Pass, Kind}
use lrc.Attach.Rules.{Holds, attach_txs_rule}
use lrc.Attach.Transfers.{handle_checked-IsOrdered}
use lrc.Attach
use lrc.Attach.Order

module _ {T Tx : Type 0} (keys : KeyEq T) (txid : Tx → T) (kind : Tx → Kind T)
    (is_stored : T → Option Bool) (order : List T → List T) (past : T → Type 0)
    (past_stored : (t : T) → is_stored t ≡ some true → past t) where
  abbrev IsOrdered : Pass T Tx → Type 0
  IsOrdered = Order.IsOrdered keys txid kind is_stored order past past_stored

  round-IsOrdered :
      (id : T) (ids : List T) (p : Pass T Tx)
      → IsOrdered p
      → Holds IsOrdered (
          Attach.visit_all keys txid kind is_stored order
            (order (id ∷ ids))
            (record p { queued = [] }))
  round-IsOrdered id ids p h =
      Order.visit_all-IsOrdered keys txid kind is_stored order past past_stored (order (id ∷ ids)) _
        (record { after = h.after; accounted = h.accounted })

  -- Let `past` hold of what the storage has, and let each stored transaction's parents be noted as
  -- its dependencies, or be past. Where no query fails, what `attach_txs` sends as attached is in an
  -- order where each transaction stands behind its parents, those that are past aside; and the
  -- parents of each transaction that is stored then are noted, past, or among the sent ones.
  pub attach_txs_order :
      (now : ℕ) (txs : List Tx) (s s' : GraphBuilder T Tx) (sent : List Tx)
      → Order.Accounted keys txid kind is_stored order past past_stored s []
      → Attach.attach_txs keys txid kind is_stored order now txs s ≡ some (ok (s', sent))
      → Order.After keys txid kind is_stored order past past_stored [] sent
        × Order.Accounted keys txid kind is_stored order past past_stored s' sent
  attach_txs_order now txs s s' sent accounted e =
      let (p, h, empty, same, all) =
        attach_txs_rule keys txid kind is_stored order IsOrdered (λ tx. Unit {0})
          (λ now tx p q h.
            handle_checked-IsOrdered keys txid kind is_stored order past past_stored now tx p h)
          (λ id ids p more h. round-IsOrdered id ids p h) now txs s s' sent (All-Unit txs)
          (record { after = tt; accounted = accounted }) e in
      rw (← same, ← all) (h.after, h.accounted)
