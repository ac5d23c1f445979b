-- ===== src/Attach.antt =====
-- crates/tx-attach: a transaction waits until its parents are attached. The two graph builders,
-- of lib.rs and of spark.rs, are one program over two types of transactions; it is here, over
-- ids `T` and transactions `Tx`. One time stands for all calls of `SystemTime::now` in one call.
pub mod Rules
pub mod Ends
pub mod Parents
pub mod Order
pub mod Transfers
pub mod Safety
pub mod Waking
pub mod Rounds
pub mod Linked
pub mod Liveness
pub mod Exits
pub mod Lrc20
pub mod Spark
pub mod Cleanup
use lrc.Common.{
  ℕ, Bool, true, false, if◌then◌else◌, List, [], ◌∷◌, ◌++◌, map, Option, none, some, zero, suc,
  length,
}
use lrc.Outcome.{Result, ok, err, ◌>>=◌}
use lrc.Keys.{KeyEq}
use lrc.Tables.{contains, insert, extend, remove_all, get, erase, put, or_empty}
use mathlib.Core.Option

-- The state of a graph builder. A time is a number.
pub record GraphBuilder (T Tx : Type 0) : Type 0 where
  pub inverse_deps : List (T × List T)
  pub deps : List (T × List T)
  pub stored_txs : List (T × (Tx × ℕ))

-- What a checked transaction is to the builder: an issue or a mint wakes its children, a transfer
-- waits for parents, an announcement is skipped, an exit is attached at once.
pub data Kind (T : Type 0) : Type 0 where
  issue : Kind T
  transfer : List T → Kind T
  announcement : Kind T
  spark_exit : Kind T

abbrev pub parents : {T : Type 0} → Kind T → List T
parents (transfer ids) = ids
parents issue = []
parents announcement = []
parents spark_exit = []

-- The builder with the local variables of `attach_txs`: `attached` is `attached_txs`.
pub record Pass (T Tx : Type 0) : Type 0 where
  pub builder : GraphBuilder T Tx
  pub queued : List T
  pub attached : List Tx

-- `txid` and `kind` read a transaction; `is_stored` asks the storage, and `none` is a failed query;
-- `order` is the order in which a hash set is gone through.
module _ {T Tx : Type 0} (keys : KeyEq T) (txid : Tx → T) (kind : Tx → Kind T)
    (is_stored : T → Option Bool) (order : List T → List T) where
  abbrev pub deps_of : GraphBuilder T Tx → T → List T
  deps_of s child = or_empty (get keys child s.deps)

  -- `attached_txs.contains(id) || storage.get(id).await?.is_some()`
  unfoldable pub is_attached : Pass T Tx → T → Result (Pass T Tx) Bool
  is_attached p id =
      if contains keys id (map txid p.attached)
      then ok true
      else elim (is_stored id) [ none ↦ err p | some found ↦ ok found ]

  unfoldable pub add_dep : T → T → GraphBuilder T Tx → GraphBuilder T Tx
  add_dep child parent s = record {
    inverse_deps =
        put keys parent (insert keys child (or_empty (get keys parent s.inverse_deps)))
          s.inverse_deps;
    deps = put keys child (insert keys parent (deps_of s child)) s.deps;
    stored_txs = s.stored_txs;
  }

  -- The loop of `handle_transfer` over the parents.
  unfoldable pub add_parents : T → List T → Pass T Tx → Result (Pass T Tx) (Pass T Tx)
  add_parents child [] p = ok p
  add_parents child (parent ∷ ids) p = do
    attached ← is_attached p parent
    add_parents child ids
        (if attached then p else record p { builder = add_dep child parent p.builder })

  -- The children of an attached transaction are queued.
  unfoldable pub wake : T → Pass T Tx → Pass T Tx
  wake id p = elim (get keys id p.builder.inverse_deps) [
    | none ↦ p
    | some ids ↦ record p {
      builder = record (p.builder) { inverse_deps = erase keys id p.builder.inverse_deps };
      queued = extend keys p.queued ids;
    }
  ]

  -- `attached_txs.push`, with `deps.remove` and the children queued.
  unfoldable pub attach : Tx → T → Pass T Tx → Pass T Tx
  attach tx id p = wake id (record p {
    builder = record (p.builder) { deps = erase keys id p.builder.deps };
    attached = p.attached ++ (tx ∷ []);
  })

  -- The end of `handle_transfer`, at the time `now`.
  unfoldable pub attach_or_store : Tx → ℕ → Pass T Tx → Pass T Tx
  attach_or_store tx now p = elim (deps_of p.builder (txid tx)) [
    | [] ↦ attach tx (txid tx) p
    | _ ↦ record p {
      builder = record (p.builder) {
        stored_txs = put keys (txid tx) (tx, now) p.builder.stored_txs;
      };
    }
  ]

  unfoldable pub handle_transfer : Tx → List T → ℕ → Pass T Tx → Result (Pass T Tx) (Pass T Tx)
  handle_transfer tx ids now p = do
    added ← add_parents (txid tx) ids p
    ok (attach_or_store tx now added)

  -- The body of the first loop of `attach_txs`.
  unfoldable pub handle_checked : ℕ → Tx → Pass T Tx → Result (Pass T Tx) (Pass T Tx)
  handle_checked now tx p = elim (kind tx) [
    | issue ↦ ok (wake (txid tx) (record p { attached = p.attached ++ (tx ∷ []) }))
    | transfer ids ↦ handle_transfer tx ids now p
    | announcement ↦ ok p
    | spark_exit ↦ ok (record p { attached = p.attached ++ (tx ∷ []) })
  ]

  unfoldable pub handle_all : ℕ → List Tx → Pass T Tx → Result (Pass T Tx) (Pass T Tx)
  handle_all now [] p = ok p
  handle_all now (tx ∷ txs) p = do p' ← handle_checked now tx p; handle_all now txs p'

  -- `ids_to_remove`
  unfoldable pub attached_among : Pass T Tx → List T → Result (Pass T Tx) (List T)
  attached_among p [] = ok []
  attached_among p (id ∷ ids) = do
    attached ← is_attached p id
    rest ← attached_among p ids
    ok (if attached then id ∷ rest else rest)

  abbrev pub is_nil : List T → Bool
  is_nil [] = true
  is_nil (id ∷ ids) = false

  abbrev pub left_with : T → List T → Pass T Tx → Pass T Tx
  left_with id left p = record p {
    builder = record (p.builder) { deps = put keys id left p.builder.deps };
  }

  -- Also whether no dependency is left.
  unfoldable pub remove_attached_parents : T → Pass T Tx → Result (Pass T Tx) (Pass T Tx × Bool)
  remove_attached_parents id p = elim (get keys id p.builder.deps) [
    | none ↦ ok (p, true)
    | some ids ↦ do
      ids_to_remove ← attached_among p (order ids)
      let left = remove_all keys ids_to_remove ids
      ok (left_with id left p, is_nil left)
  ]

  unfoldable pub attach_stored : T → Pass T Tx → Pass T Tx
  attach_stored id p = elim (get keys id p.builder.stored_txs) [
    | none ↦ p
    | some (tx, since) ↦ attach tx id (record p {
      builder = record (p.builder) { stored_txs = erase keys id p.builder.stored_txs };
    })
  ]

  -- The body of the loop over `queued_txs`; `queued` of the pass is `local_queue`.
  unfoldable pub visit : T → Pass T Tx → Result (Pass T Tx) (Pass T Tx)
  visit id p = do
    (p', is_empty) ← remove_attached_parents id p
    ok (if is_empty then attach_stored id p' else p')

  unfoldable pub visit_all : List T → Pass T Tx → Result (Pass T Tx) (Pass T Tx)
  visit_all [] p = ok p
  visit_all (id ∷ ids) p = do p' ← visit id p; visit_all ids p'

  -- The loop `while !queued_txs.is_empty()`; `none` means that the fuel ran out.
  unfoldable pub attach_queued : ℕ → Pass T Tx → Option (Result (Pass T Tx) (Pass T Tx))
  attach_queued zero p = elim p.queued [ [] ↦ some (ok p) | _ ↦ none ]
  attach_queued (suc fuel) p = elim p.queued [
    | [] ↦ some (ok p)
    | id ∷ ids ↦ elim (visit_all (order (id ∷ ids)) (record p { queued = [] })) [
      | err failed ↦ some (err failed)
      | ok p' ↦ attach_queued fuel p'
    ]
  ]

  abbrev pub start : GraphBuilder T Tx → Pass T Tx
  start s = record { builder = s; queued = []; attached = [] }

  -- The builder afterwards, with what is sent as attached where no query failed.
  abbrev pub outcome :
      Result (Pass T Tx) (Pass T Tx) → Result (GraphBuilder T Tx) (GraphBuilder T Tx × List Tx)
  outcome (err p) = err p.builder
  outcome (ok p) = ok (p.builder, p.attached)

  unfoldable pub attach_txs :
      ℕ
      → List Tx
      → GraphBuilder T Tx
      → Option (Result (GraphBuilder T Tx) (GraphBuilder T Tx × List Tx))
  attach_txs now txs s = elim (handle_all now txs (start s)) [
    | err p ↦ some (err p.builder)
    | ok p ↦ Option.map outcome (attach_queued (suc (length p.builder.inverse_deps)) p)
  ]
