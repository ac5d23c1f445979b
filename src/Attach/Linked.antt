-- ===== src/Attach/Linked.antt =====
-- What the first loop of `attach_txs` keeps of the links between transactions.
use lrc.Common.{
  ℕ, ◌≡◌, ◌≢◌, Bool, false, ◌&&◌, ◌||◌, List, [], ◌∷◌, ◌++◌, Option, arith, inl, inr, refl,
  Bool-cases, List-cases,
}
use lrc.Outcome.{ok}
use lrc.Keys.{KeyEq}
use lrc.Tables.{contains, insert, get, put, or_empty}
use lrc.Tables.Laws.{contains-insert, get-put}
use lrc.Attach.{GraphBuilder, Pass, Kind, issue, transfer, announcement, spark_exit}
use lrc.Attach.Parents.{added, add_parents_rule, deps_of-add_dep}
use lrc.Attach.Rules.{Holds, Holds-bind}
use lrc.Attach
use lrc.Attach.Waking

module _ {T Tx : Type 0} (keys : KeyEq T) (txid : Tx → T) (kind : Tx → Kind T)
    (is_stored : T → Option Bool) (order : List T → List T) (exits : Bool)
    (contains-order : (t : T) (ids : List T)
      → contains keys t (order ids) ≡ contains keys t ids) where
  abbrev IsLinked : Pass T Tx → Type 0
  IsLinked = Waking.IsLinked keys txid kind is_stored order exits []

  abbrev Waits : GraphBuilder T Tx → T → T → Type 0
  Waits = Waking.Waits keys txid kind is_stored order exits

  abbrev IsAttached : List Tx → T → Type 0
  IsAttached = Waking.IsAttached keys txid kind is_stored order exits

  waiting_for-add_dep :
      (child parent c t : T) (s : GraphBuilder T Tx)
      → contains keys c (
          Waking.waiting_for keys txid kind is_stored order exits
            (Attach.add_dep keys txid kind is_stored order child parent s)
            t)
        ≡ ((keys.same parent t && keys.same child c)
            || contains keys c (Waking.waiting_for keys txid kind is_stored order exits s t))
  unfolding Attach.add_dep
  waiting_for-add_dep child parent c t s = ground (
    arith,
    get-put keys parent t (insert keys child (or_empty (get keys parent s.inverse_deps)))
        s.inverse_deps,
    contains-insert keys child c (or_empty (get keys parent s.inverse_deps)),
    keys.same→eq parent t,
  )

  unattached :
      (p : Pass T Tx) (t parent : T)
      → Attach.is_attached keys txid kind is_stored order p parent ≡ ok false
      → IsAttached p.attached t
      → keys.same parent t ≡ false
  unfolding Attach.is_attached
  unattached p t parent asked settled = ground (arith, keys.same→eq parent t)

  add_dep-IsLinked :
      (child parent : T) (p : Pass T Tx)
      → Attach.is_attached keys txid kind is_stored order p parent ≡ ok false
      → IsLinked p
      → IsLinked (added keys txid kind is_stored order child parent p)
  unfolding Attach.add_dep
  add_dep-IsLinked child parent p fresh h = record {
    linked = λ c t w. elim (Bool-cases (keys.same child c && keys.same parent t)) [
      | inl new ↦ inl (rw (waiting_for-add_dep child parent c t p.builder) (ground arith))
      | inr old ↦
          elim (h.linked c t (
            ground
              (arith, deps_of-add_dep keys txid kind is_stored order child parent c t p.builder))) [
                | inl noted ↦
                    inl (rw (waiting_for-add_dep child parent c t p.builder, noted) (ground arith))
                | inr queued ↦ inr queued
              ]
    ];
    keyed = h.keyed;
    gone = λ no_exits t settled.
        rw
          (
            get-put keys parent t
                (insert keys child (or_empty (get keys parent p.builder.inverse_deps)))
                p.builder.inverse_deps,
            unattached p t parent fresh settled,
          )
          (h.gone no_exits t settled);
  }

  store-IsLinked :
      (tx : Tx) (now : ℕ) (p : Pass T Tx)
      → IsLinked p
      → IsLinked (record p {
        builder = record (p.builder) {
          stored_txs = put keys (txid tx) (tx, now) p.builder.stored_txs;
        };
      })
  store-IsLinked tx now p h = record {
    linked = h.linked;
    keyed = λ c stored since e. elim (Bool-cases (keys.same (txid tx) c)) [
      | inl same ↦
          ground (
            arith,
            keys.same→eq (txid tx) c,
            get-put keys (txid tx) c (tx, now) p.builder.stored_txs,
          )
      | inr other ↦
          h.keyed c stored since
            (ground (arith, get-put keys (txid tx) c (tx, now) p.builder.stored_txs))
    ];
    gone = h.gone;
  }

  attach_or_store-IsLinked :
      (tx : Tx) (now : ℕ) (p : Pass T Tx)
      → IsLinked p
      → IsLinked (Attach.attach_or_store keys txid kind is_stored order tx now p)
  unfolding Attach.attach_or_store
  attach_or_store-IsLinked tx now p h =
      elim (List-cases (Attach.deps_of keys txid kind is_stored order p.builder (txid tx))) [
        | inl empty ↦
            rw (empty, Attach.attach_or_store)
              (Waking.attach-IsLinked keys txid kind is_stored order exits tx (txid tx) [] p refl h)
        | inr (dep, deps, e) ↦ rw (e, Attach.attach_or_store) (store-IsLinked tx now p h)
      ]

  handle_transfer-IsLinked :
      (tx : Tx) (ids : List T) (now : ℕ) (p : Pass T Tx)
      → IsLinked p
      → Holds IsLinked (Attach.handle_transfer keys txid kind is_stored order tx ids now p)
  unfolding Attach.handle_transfer
  handle_transfer-IsLinked tx ids now p h =
      Holds-bind IsLinked IsLinked
        (Attach.add_parents keys txid kind is_stored order (txid tx) ids p) _
        (add_parents_rule keys txid kind is_stored order IsLinked (txid tx)
          (add_dep-IsLinked (txid tx)) ids p h)
        (λ q. attach_or_store-IsLinked tx now q)

  -- An exit is attached and nothing is queued.
  exit-IsLinked :
      (tx : Tx) (p : Pass T Tx)
      → exits ≢ false
      → IsLinked p
      → IsLinked (record p { attached = p.attached ++ (tx ∷ []) })
  exit-IsLinked tx p some_exit h = record {
    linked = λ c t w. elim (h.linked c t w) [
      | inl noted ↦ inl noted
      | inr (settled, queued) ↦ inr (
        rw (Waking.IsAttached-push keys txid kind is_stored order exits p.attached tx t, settled)
            refl,
        queued,
      )
    ];
    keyed = h.keyed;
    gone = λ no_exits. absurd (some_exit no_exits);
  }

  abbrev Expected : Tx → Type 0
  Expected tx = exits ≡ false → kind tx ≢ spark_exit

  pub handle_checked-IsLinked :
      (now : ℕ) (tx : Tx) (p : Pass T Tx)
      → Expected tx
      → IsLinked p
      → Holds IsLinked (Attach.handle_checked keys txid kind is_stored order now tx p)
  unfolding Attach.handle_checked
  handle_checked-IsLinked now tx p expected h = go (kind tx) refl
    where
      go :
          (k : Kind T)
          → kind tx ≡ k
          → Holds IsLinked (Attach.handle_checked keys txid kind is_stored order now tx p)
      go issue e =
          rw (e, Attach.handle_checked)
            (Waking.wake-IsLinked keys txid kind is_stored order exits tx [] p h)
      go (transfer ids) e = rw (e, Attach.handle_checked) (handle_transfer-IsLinked tx ids now p h)
      go announcement e = rw (e, Attach.handle_checked) h
      go spark_exit e =
          rw (e, Attach.handle_checked) (exit-IsLinked tx p (λ no_exits. expected no_exits e) h)
