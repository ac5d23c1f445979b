-- ===== src/Attach/Cleanup/Deletions.antt =====
-- What the clean-up of crates/tx-attach/src/lib.rs deletes from the storage.
use lrc.Common.{
  sym, ℕ, zero, suc, ◌≡◌, Bool, true, List, [], ◌∷◌, ◌++◌, some, arith, inl, inr, Bool-cases,
  Option-cases, List-cases, subst,
}
use lrc.Outcome.{ok, Result-cases}
use lrc.Keys.{KeyEq}
use lrc.Tables.{contains, remove, get, erase, put, or_empty}
use lrc.Tables.Laws.{contains-append, get-erase, get-put}
use lrc.Attach.Cleanup.{
  Cleanup, Work, pairs, remove_from_inverse_deps, push_new, remove_tx_from_deps, remove_waiting,
  remove_outdated_tx, remove_outdated_txs_from_mempool,
}

module _ {T : Type 0} (keys : KeyEq T) where
  -- What is to be removed stays so.
  remove_from_inverse_deps_keeps :
      (id t : T) (deps gone : List T) (m : List (T × List T))
      → contains keys t gone ≡ true
      → contains keys t (remove_from_inverse_deps keys id deps gone m).0 ≡ true
  unfolding remove_from_inverse_deps
  remove_from_inverse_deps_keeps id t [] gone m h = h
  remove_from_inverse_deps_keeps id t (dep ∷ deps) gone m h =
      let grown = contains-append keys t gone (dep ∷ []) in
      elim (Option-cases (get keys dep m)) [
        | inl e ↦ ground (arith, remove_from_inverse_deps_keeps id t deps gone m)
        | inr (ids, e) ↦ elim (List-cases (remove keys id ids)) [
          | inl empty ↦ ground (
            arith,
            grown,
            remove_from_inverse_deps_keeps id t deps (gone ++ (dep ∷ [])) (erase keys dep m),
          )
          | inr (left, more, some_left) ↦ ground (
            arith,
            grown,
            remove_from_inverse_deps_keeps id t deps (gone ++ (dep ∷ []))
                (put keys dep (left ∷ more) m),
          )
        ]
      ]

  -- A dependency for which the builder knows that something waits is to be removed.
  remove_from_inverse_deps_lem :
      (id t : T) (deps gone ids : List T) (m : List (T × List T))
      → contains keys t deps ≡ true
      → get keys t m ≡ some ids
      → contains keys t (remove_from_inverse_deps keys id deps gone m).0 ≡ true
  unfolding remove_from_inverse_deps contains
  remove_from_inverse_deps_lem id t [] gone ids m h e = cc
  remove_from_inverse_deps_lem id t (dep ∷ deps) gone ids m h e =
      elim (Bool-cases (keys.same dep t)) [
        | inl same ↦
            let here : get keys dep m ≡ some ids =
              subst (λ k. get keys k m ≡ some ids) (sym (keys.same→eq dep t same)) e in
            let grown : contains keys t (gone ++ (dep ∷ [])) ≡ true =
              ground (arith, contains-append keys t gone (dep ∷ [])) in
            elim (List-cases (remove keys id ids)) [
              | inl empty ↦ ground (
                arith,
                remove_from_inverse_deps_keeps id t deps (gone ++ (dep ∷ [])) (erase keys dep m),
              )
              | inr (left, more, some_left) ↦ ground (
                arith,
                remove_from_inverse_deps_keeps id t deps (gone ++ (dep ∷ []))
                    (put keys dep (left ∷ more) m),
              )
            ]
        | inr other ↦ elim (Option-cases (get keys dep m)) [
          | inl gone_dep ↦ ground (arith, remove_from_inverse_deps_lem id t deps gone ids m)
          | inr (js, found) ↦ elim (List-cases (remove keys id js)) [
            | inl empty ↦ ground (
              arith,
              get-erase keys dep t m,
              remove_from_inverse_deps_lem id t deps (gone ++ (dep ∷ [])) ids (erase keys dep m),
            )
            | inr (left, more, some_left) ↦ ground (
              arith,
              get-put keys dep t (left ∷ more) m,
              remove_from_inverse_deps_lem id t deps (gone ++ (dep ∷ [])) ids
                  (put keys dep (left ∷ more) m),
            )
          ]
        ]
      ]

module _ {T Tx : Type 0} (keys : KeyEq T) (delete : List T → Bool) (order : List T → List T)
    (contains-order : (t : T) (ids : List T)
      → contains keys t (order ids) ≡ contains keys t ids) where
  remove_tx_from_deps_keeps :
      (id t : T) (c c' : Cleanup T Tx)
      → remove_tx_from_deps keys (some delete) order id c ≡ ok c'
      → contains keys t c.deleted ≡ true
      → contains keys t c'.deleted ≡ true
  unfolding remove_tx_from_deps remove_outdated_txs_from_mempool
  remove_tx_from_deps_keeps id t c c' e h =
      let (gone, m) =
        remove_from_inverse_deps keys id (order (or_empty (get keys id c.builder.deps))) (id ∷ [])
          c.builder.inverse_deps in
      ground (arith, contains-append keys t c.deleted gone)

  abbrev unstored : T → Cleanup T Tx → Cleanup T Tx
  unstored id c = record c {
    builder = record (c.builder) { stored_txs = erase keys id c.builder.stored_txs };
  }

  -- Behind the first removal the loop goes on.
  remove_waiting_rest :
      (fuel : ℕ) (t id : T) (ids seen : List T) (c q c' : Cleanup T Tx)
      → ((ids seen : List T) (q : Cleanup T Tx)
          → remove_waiting keys (some delete) order fuel ids seen q ≡ some (ok c')
          → contains keys t q.deleted ≡ true
          → contains keys t c'.deleted ≡ true)
      → remove_tx_from_deps keys (some delete) order id (unstored id c) ≡ ok q
      → remove_waiting keys (some delete) order (suc fuel) (id ∷ ids) seen c ≡ some (ok c')
      → contains keys t q.deleted ≡ true
      → contains keys t c'.deleted ≡ true
  unfolding remove_waiting
  remove_waiting_rest fuel t id ids seen c q c' rest passed e kept =
      elim (Option-cases (get keys id q.builder.inverse_deps)) [
        | inl e' ↦ ground (arith, rest ids seen q)
        | inr (waiting, e') ↦
            let w : Work T = record { txs_to_remove = ids; removed_txs_set = seen } in
            let pushed = push_new keys (order waiting) w in
            ground (
              arith,
              rest pushed.txs_to_remove pushed.removed_txs_set (record q {
                builder = record (q.builder) {
                  inverse_deps = erase keys id q.builder.inverse_deps;
                };
              }),
            )
      ]

  remove_waiting_keeps :
      (fuel : ℕ) (t : T) (c' : Cleanup T Tx) (ids seen : List T) (c : Cleanup T Tx)
      → remove_waiting keys (some delete) order fuel ids seen c ≡ some (ok c')
      → contains keys t c.deleted ≡ true
      → contains keys t c'.deleted ≡ true
  unfolding remove_waiting
  remove_waiting_keeps zero t c' [] seen c e h = ground arith
  remove_waiting_keeps (suc fuel) t c' [] seen c e h = ground arith
  remove_waiting_keeps zero t c' (id ∷ ids) seen c e h = cc
  remove_waiting_keeps (suc fuel) t c' (id ∷ ids) seen c e h =
      elim (Result-cases (remove_tx_from_deps keys (some delete) order id (unstored id c))) [
        | inr (q, failed) ↦ ground arith
        | inl (q, passed) ↦
            remove_waiting_rest fuel t id ids seen c q c' (remove_waiting_keeps fuel t c') passed e
              (remove_tx_from_deps_keeps id t (unstored id c) q passed h)
      ]

  remove_tx_from_deps_deletes :
      (id t : T) (ids : List T) (c c' : Cleanup T Tx)
      → remove_tx_from_deps keys (some delete) order id c ≡ ok c'
      → contains keys t (or_empty (get keys id c.builder.deps)) ≡ true
      → get keys t c.builder.inverse_deps ≡ some ids
      → contains keys t c'.deleted ≡ true
  unfolding remove_tx_from_deps remove_outdated_txs_from_mempool
  remove_tx_from_deps_deletes id t ids c c' e waits noted =
      let deps = order (or_empty (get keys id c.builder.deps)) in
      let removed = remove_from_inverse_deps keys id deps (id ∷ []) c.builder.inverse_deps in
      ground (
        arith,
        contains-append keys t c.deleted removed.0,
        contains-order t (or_empty (get keys id c.builder.deps)),
        remove_from_inverse_deps_lem keys id t deps (id ∷ []) ids c.builder.inverse_deps,
      )

  -- In the builder that deletes from the storage, let a transaction wait for another, with both
  -- directions of that noted. Where it is removed as outdated and no deletion fails, the one it waits
  -- for is deleted from the storage as well.
  pub remove_outdated_tx_deletes_parent :
      (id t : T) (ids : List T) (c c' : Cleanup T Tx)
      → contains keys t (or_empty (get keys id c.builder.deps)) ≡ true
      → get keys t c.builder.inverse_deps ≡ some ids
      → remove_outdated_tx keys (some delete) order id c ≡ some (ok c')
      → contains keys t c'.deleted ≡ true
  unfolding remove_outdated_tx remove_waiting
  remove_outdated_tx_deletes_parent id t ids c c' waits noted e =
      elim (Result-cases (remove_tx_from_deps keys (some delete) order id (unstored id c))) [
        | inr (q, failed) ↦ ground arith
        | inl (q, passed) ↦
            let fuel = pairs c.builder.inverse_deps in
            remove_waiting_rest fuel t id [] (id ∷ []) c q c' (remove_waiting_keeps fuel t c')
              passed e (remove_tx_from_deps_deletes id t ids (unstored id c) q passed waits noted)
      ]
