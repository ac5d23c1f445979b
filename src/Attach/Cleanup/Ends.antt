-- ===== src/Attach/Cleanup/Ends.antt =====
-- The clean-up ends: what is queued for removal leaves `inverse_deps`.
use lrc.Common.{
  Option, ap, ℕ, zero, suc, ◌≡◌, ◌≢◌, ◌≤◌, ◌+◌, Bool, List, [], ◌∷◌, ◌++◌, none, some, length,
  arith, inl, inr, Bool-cases, Option-cases, List-cases, length-append,
}
use lrc.Outcome.{ok, Result-cases}
use lrc.Keys.{KeyEq}
use lrc.Tables.{contains, insert, remove, get, erase, put, or_empty}
use lrc.Tables.Laws.{length-remove}
use lrc.Attach.{GraphBuilder}
use lrc.Attach.Cleanup.{
  Cleanup, Work, pairs, remove_from_inverse_deps, push_new, remove_tx_from_deps, remove_waiting,
  remove_outdated_tx, remove_each, remove_outdated_txs_from_mempool, handle_cleanup, outdated,
}

module _ {T : Type 0} (keys : KeyEq T) where
  pairs-erase : (id : T) (m : List (T × List T)) → pairs (erase keys id m) ≤ pairs m
  unfolding pairs erase
  pairs-erase id [] = omega arith
  pairs-erase id ((j, ids) ∷ m) = ground (arith, pairs-erase id m)

  pairs-erase-some :
      (id : T) (ids : List T) (m : List (T × List T))
      → get keys id m ≡ some ids
      → length ids + pairs (erase keys id m) ≤ pairs m
  unfolding pairs erase get
  pairs-erase-some id ids [] e = cc
  pairs-erase-some id ids ((j, js) ∷ m) e =
      ground (arith, pairs-erase id m, pairs-erase-some id ids m)

  pairs-put :
      (id : T) (ids left : List T) (m : List (T × List T))
      → get keys id m ≡ some ids
      → length left ≤ length ids
      → pairs (put keys id left m) ≤ pairs m
  unfolding pairs put
  pairs-put id ids left m e h = omega (arith, pairs-erase-some id ids m e)

  pairs-remove_from_inverse_deps :
      (id : T) (deps gone : List T) (m : List (T × List T))
      → pairs (remove_from_inverse_deps keys id deps gone m).1 ≤ pairs m
  unfolding remove_from_inverse_deps
  pairs-remove_from_inverse_deps id [] gone m = omega arith
  pairs-remove_from_inverse_deps id (dep ∷ deps) gone m = elim (Option-cases (get keys dep m)) [
    | inl e ↦ ground (arith, pairs-remove_from_inverse_deps id deps gone m)
    | inr (ids, e) ↦ elim (List-cases (remove keys id ids)) [
      | inl empty ↦ ground (
        arith,
        pairs-remove_from_inverse_deps id deps (gone ++ (dep ∷ [])) (erase keys dep m),
        pairs-erase dep m,
      )
      | inr (left, more, some_left) ↦
          let shrinks =
            pairs-put dep ids (left ∷ more) m e
              (omega (arith, length-remove keys id ids, ap length some_left)) in
          ground (
            arith,
            pairs-remove_from_inverse_deps id deps (gone ++ (dep ∷ []))
                (put keys dep (left ∷ more) m),
            shrinks,
          )
    ]
  ]

  length-push_new :
      (ids : List T) (w : Work T)
      → length (push_new keys ids w).txs_to_remove ≤ length w.txs_to_remove + length ids
  unfolding push_new
  length-push_new [] w = omega arith
  length-push_new (id ∷ ids) w = elim (Bool-cases (contains keys id w.removed_txs_set)) [
    | inl e ↦ ground (arith, length-push_new ids w)
    | inr e ↦ ground (
      arith,
      length-append w.txs_to_remove (id ∷ []),
      length-push_new ids (record {
        txs_to_remove = w.txs_to_remove ++ (id ∷ []);
        removed_txs_set = insert keys id w.removed_txs_set;
      }),
    )
  ]

-- The order in which a set is gone through has each of its members once.
module _ {T Tx : Type 0} (keys : KeyEq T) (delete : Option (List T → Bool))
    (order : List T → List T)
    (length-order : (ids : List T) → length (order ids) ≡ length ids) where
  remove_outdated_txs_from_mempool_builder :
      (txids : List T) (c c' : Cleanup T Tx)
      → remove_outdated_txs_from_mempool keys delete order txids c ≡ ok c'
      → c'.builder ≡ c.builder
  unfolding remove_outdated_txs_from_mempool
  remove_outdated_txs_from_mempool_builder txids c c' e = elim (Option-cases delete) [
    | inl nothing ↦ ground (arith, e, nothing)
    | inr (deletes, is) ↦ elim (Bool-cases (deletes txids)) [
      | inl gone ↦ ground (arith, e, is, gone)
      | inr failed ↦ absurd (ground (arith, e, is, failed))
    ]
  ]

  pairs-remove_tx_from_deps :
      (id : T) (c c' : Cleanup T Tx)
      → remove_tx_from_deps keys delete order id c ≡ ok c'
      → pairs c'.builder.inverse_deps ≤ pairs c.builder.inverse_deps
  unfolding remove_tx_from_deps
  pairs-remove_tx_from_deps id c c' e = ground (
    arith,
    remove_outdated_txs_from_mempool_builder _ _ c' e,
    pairs-remove_from_inverse_deps keys id (order (or_empty (get keys id c.builder.deps))) (id ∷ [])
        c.builder.inverse_deps,
  )

  abbrev unstored : T → Cleanup T Tx → Cleanup T Tx
  unstored id c = record c {
    builder = record (c.builder) { stored_txs = erase keys id c.builder.stored_txs };
  }

  remove_waiting_ends :
      (fuel : ℕ) (ids seen : List T) (c : Cleanup T Tx)
      → length ids + pairs c.builder.inverse_deps ≤ fuel
      → remove_waiting keys delete order fuel ids seen c ≢ none
  unfolding remove_waiting
  remove_waiting_ends zero [] seen c h = λ e. cc
  remove_waiting_ends (suc fuel) [] seen c h = λ e. cc
  remove_waiting_ends zero (id ∷ ids) seen c h = absurd (omega arith)
  remove_waiting_ends (suc fuel) (id ∷ ids) seen c h =
      elim (Result-cases (remove_tx_from_deps keys delete order id (unstored id c))) [
        | inr (c', failed) ↦ ground arith
        | inl (c', passed) ↦
            let fewer = pairs-remove_tx_from_deps id (unstored id c) c' passed in
            elim (Option-cases (get keys id c'.builder.inverse_deps)) [
              | inl e ↦ ground (arith, remove_waiting_ends fuel ids seen c')
              | inr (waiting, e) ↦
                  let w : Work T = record { txs_to_remove = ids; removed_txs_set = seen } in
                  let pushed = push_new keys (order waiting) w in
                  ground (
                    arith,
                    remove_waiting_ends fuel pushed.txs_to_remove pushed.removed_txs_set
                        (record c' {
                          builder = record (c'.builder) {
                            inverse_deps = erase keys id c'.builder.inverse_deps;
                          };
                        }),
                    length-push_new keys (order waiting) w,
                    length-order waiting,
                    pairs-erase-some keys id waiting c'.builder.inverse_deps,
                  )
            ]
      ]

  -- The removal of an outdated transaction ends, whatever waits for it and whichever deletions fail.
  remove_outdated_tx_ends :
      (id : T) (c : Cleanup T Tx) → remove_outdated_tx keys delete order id c ≢ none
  unfolding remove_outdated_tx
  remove_outdated_tx_ends id c =
      remove_waiting_ends (suc (pairs c.builder.inverse_deps)) (id ∷ []) (id ∷ []) c (omega arith)

  remove_each_ends : (ids : List T) (c : Cleanup T Tx) → remove_each keys delete order ids c ≢ none
  unfolding remove_each
  remove_each_ends [] c = λ e. cc
  remove_each_ends (id ∷ ids) c = elim (Option-cases (remove_outdated_tx keys delete order id c)) [
    | inl e ↦ absurd (remove_outdated_tx_ends id c e)
    | inr (r, e) ↦ elim (Result-cases r) [
      | inl (c', passed) ↦ ground (arith, remove_each_ends ids c')
      | inr (c', failed) ↦ ground arith
    ]
  ]

  -- The clean-up of a graph builder ends, whatever the builder is, whether or not it deletes from the
  -- storage and whichever deletions fail.
  pub handle_cleanup_ends :
      (now tx_outdated_duration : ℕ) (s : GraphBuilder T Tx)
      → handle_cleanup keys delete order now tx_outdated_duration s ≢ none
  unfolding handle_cleanup
  handle_cleanup_ends now tx_outdated_duration s =
      elim (Option-cases (outdated keys delete order now tx_outdated_duration s.stored_txs)) [
        | inl e ↦ ground arith
        | inr (ids, e) ↦ ground (arith, remove_each_ends ids (record { builder = s; deleted = [] }))
      ]
