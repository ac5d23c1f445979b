-- ===== src/Attach/Cleanup.antt =====
-- The clean-up of the graph builders: transactions that wait too long are removed, with all that wait
-- for them. The builder of lib.rs also deletes what it removes from the storage; that of spark.rs does
-- not, and its `remove_tx` is `remove_outdated_tx` here.
pub mod Ends
pub mod Deletions
use lrc.Common.{
  ℕ, zero, suc, ◌-◌, ◌+◌, Bool, if◌then◌else◌, List, [], ◌∷◌, ◌++◌, Option, none, some, length, ltb,
}
use lrc.Outcome.{Result, ok, err}
use lrc.Keys.{KeyEq}
use lrc.Tables.{contains, insert, remove, get, erase, put, or_empty}
use lrc.Attach.{GraphBuilder}
use mathlib.Core.Option

-- The builder, with the ids whose deletion from the storage was asked for, in order.
pub record Cleanup (T Tx : Type 0) : Type 0 where
  pub builder : GraphBuilder T Tx
  pub deleted : List T

-- `txs_to_remove` and `removed_txs_set` of `remove_outdated_tx`.
pub record Work (T : Type 0) : Type 0 where
  pub txs_to_remove : List T
  pub removed_txs_set : List T

-- The number of pairs of a transaction and one that waits for it.
unfoldable pub pairs : {T : Type 0} → List (T × List T) → ℕ
pairs [] = 0
pairs ((id, ids) ∷ m) = length ids + pairs m

module _ {T : Type 0} (keys : KeyEq T) where
  -- The loop of `remove_tx_from_deps`; `gone` is its `txs_to_remove`.
  unfoldable pub remove_from_inverse_deps :
      T → List T → List T → List (T × List T) → List T × List (T × List T)
  remove_from_inverse_deps id [] gone inverse_deps = (gone, inverse_deps)
  remove_from_inverse_deps id (dep ∷ deps) gone inverse_deps = elim (get keys dep inverse_deps) [
    | none ↦ remove_from_inverse_deps id deps gone inverse_deps
    | some ids ↦ elim (remove keys id ids) [
      | [] ↦ remove_from_inverse_deps id deps (gone ++ (dep ∷ [])) (erase keys dep inverse_deps)
      | left ∷ more ↦
          remove_from_inverse_deps id deps (gone ++ (dep ∷ []))
            (put keys dep (left ∷ more) inverse_deps)
    ]
  ]

  -- The loop over `inverse_deps` that were removed.
  unfoldable pub push_new : List T → Work T → Work T
  push_new [] w = w
  push_new (id ∷ ids) w = push_new ids (
      if contains keys id w.removed_txs_set then w else record {
        txs_to_remove = w.txs_to_remove ++ (id ∷ []);
        removed_txs_set = insert keys id w.removed_txs_set;
      })

-- `delete` says whether the storage deletes the transactions with these ids; there is none in the
-- builder of spark.rs.
module _ {T Tx : Type 0} (keys : KeyEq T) (delete : Option (List T → Bool))
    (order : List T → List T) where
  -- The deletion at the end of `remove_tx_from_deps`.
  unfoldable pub remove_outdated_txs_from_mempool :
      List T → Cleanup T Tx → Result (Cleanup T Tx) (Cleanup T Tx)
  remove_outdated_txs_from_mempool txids c = elim delete [
    | none ↦ ok c
    | some deletes ↦ if deletes txids then ok (record c { deleted = c.deleted ++ txids }) else err c
  ]

  unfoldable pub remove_tx_from_deps : T → Cleanup T Tx → Result (Cleanup T Tx) (Cleanup T Tx)
  remove_tx_from_deps id c =
      let (gone, inverse_deps) =
        remove_from_inverse_deps keys id (order (or_empty (get keys id c.builder.deps))) (id ∷ [])
          c.builder.inverse_deps in
      let s : GraphBuilder T Tx = record {
        inverse_deps = inverse_deps;
        deps = erase keys id c.builder.deps;
        stored_txs = c.builder.stored_txs;
      } in
      remove_outdated_txs_from_mempool gone (record { builder = s; deleted = c.deleted })

  -- The loop of `remove_outdated_tx`; `none` means that the fuel ran out.
  unfoldable pub remove_waiting :
      ℕ → List T → List T → Cleanup T Tx → Option (Result (Cleanup T Tx) (Cleanup T Tx))
  remove_waiting fuel [] seen c = some (ok c)
  remove_waiting zero (id ∷ ids) seen c = none
  remove_waiting (suc fuel) (id ∷ ids) seen c =
      elim (remove_tx_from_deps id (record c {
        builder = record (c.builder) { stored_txs = erase keys id c.builder.stored_txs };
      })) [
        | err failed ↦ some (err failed)
        | ok c' ↦ elim (get keys id c'.builder.inverse_deps) [
          | none ↦ remove_waiting fuel ids seen c'
          | some waiting ↦
              let w =
                push_new keys (order waiting)
                  (record { txs_to_remove = ids; removed_txs_set = seen }) in
              remove_waiting fuel w.txs_to_remove w.removed_txs_set (record c' {
                builder = record (c'.builder) {
                  inverse_deps = erase keys id c'.builder.inverse_deps;
                };
              })
        ]
      ]

  unfoldable pub remove_outdated_tx :
      T → Cleanup T Tx → Option (Result (Cleanup T Tx) (Cleanup T Tx))
  remove_outdated_tx id c =
      remove_waiting (suc (pairs c.builder.inverse_deps)) (id ∷ []) (id ∷ []) c

  -- The transactions that are stored for longer than `tx_outdated_duration`; `none` where one was
  -- stored later than `now`.
  unfoldable pub outdated : ℕ → ℕ → List (T × (Tx × ℕ)) → Option (List T)
  outdated now tx_outdated_duration [] = some []
  outdated now tx_outdated_duration ((id, (tx, created_at)) ∷ stored) =
      if ltb now created_at
      then none
      else Option.map (λ ids. if ltb tx_outdated_duration (now - created_at) then id ∷ ids else ids)
          (outdated now tx_outdated_duration stored)

  unfoldable pub remove_each : List T → Cleanup T Tx → Option (Result (Cleanup T Tx) (Cleanup T Tx))
  remove_each [] c = some (ok c)
  remove_each (id ∷ ids) c = elim (remove_outdated_tx id c) [
    | none ↦ none
    | some (err failed) ↦ some (err failed)
    | some (ok c') ↦ remove_each ids c'
  ]

  unfoldable pub handle_cleanup :
      ℕ → ℕ → GraphBuilder T Tx → Option (Result (Cleanup T Tx) (Cleanup T Tx))
  handle_cleanup now tx_outdated_duration s =
      elim (outdated now tx_outdated_duration s.stored_txs) [
        | none ↦ some (err (record { builder = s; deleted = [] }))
        | some ids ↦ remove_each ids (record { builder = s; deleted = [] })
      ]
