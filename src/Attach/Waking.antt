-- ===== src/Attach/Waking.antt =====
-- Whatever waits for an attached transaction is queued, and so visited.
use lrc.Common.{
  ℕ, ◌≡◌, ◌⊎◌, Bool, true, false, ◌||◌, List, [], ◌∷◌, ◌++◌, map, Option, none, some, arith, inl,
  inr, refl, Bool-cases, Option-cases, subst, ap,
}
use lrc.Keys.{KeyEq}
use lrc.Tables.{contains, extend, get, erase, or_empty}
use lrc.Tables.Laws.{contains-append, contains-extend, get-erase}
use lrc.Attach.{GraphBuilder, Pass, Kind}
use mathlib.Core.List.{map-append}
use lrc.Attach

-- `exits` says whether the exits of Spark are among the transactions.
module _ {T Tx : Type 0} (keys : KeyEq T) (txid : Tx → T) (kind : Tx → Kind T)
    (is_stored : T → Option Bool) (order : List T → List T) (exits : Bool) where
  abbrev pub waiting_for : GraphBuilder T Tx → T → List T
  waiting_for s t = or_empty (get keys t s.inverse_deps)

  abbrev pub Waits : GraphBuilder T Tx → T → T → Type 0
  Waits s c t = contains keys t (Attach.deps_of keys txid kind is_stored order s c) ≡ true

  abbrev pub IsAttached : List Tx → T → Type 0
  IsAttached attached t = contains keys t (map txid attached) ≡ true

  -- `todo` are the transactions that the current round has yet to visit.
  pub record IsLinked (todo : List T) (p : Pass T Tx) : Type 0 where
    pub linked :
        (c t : T)
        → Waits p.builder c t
        → (contains keys c (waiting_for p.builder t) ≡ true)
          ⊎ (IsAttached p.attached t × ((contains keys c todo || contains keys c p.queued) ≡ true))
    pub keyed :
        (c : T) (tx : Tx) (since : ℕ)
        → get keys c p.builder.stored_txs ≡ some (tx, since)
        → txid tx ≡ c
    pub gone :
        exits ≡ false → (t : T) → IsAttached p.attached t → get keys t p.builder.inverse_deps ≡ none

  pub IsAttached-push :
      (attached : List Tx) (tx : Tx) (t : T)
      → contains keys t (map txid (attached ++ (tx ∷ [])))
        ≡ (contains keys t (map txid attached) || keys.same (txid tx) t)
  unfolding contains
  IsAttached-push attached tx t = ground (
    arith,
    ap (contains keys t) (map-append txid attached (tx ∷ [])),
    contains-append keys t (map txid attached) (txid tx ∷ []),
  )

  -- A transaction is attached and what waits for it queued.
  abbrev pub pushed : Tx → Pass T Tx → Pass T Tx
  pushed tx p = record p { attached = p.attached ++ (tx ∷ []) }

  queued_now :
      (c : T) (ids todo : List T) (p : Pass T Tx)
      → contains keys c ids ≡ true
      → (contains keys c todo || contains keys c (extend keys p.queued ids)) ≡ true
  queued_now c ids todo p h = ground (arith, contains-extend keys c p.queued ids)

  pub wake-IsLinked :
      (tx : Tx) (todo : List T) (p : Pass T Tx)
      → IsLinked todo p
      → IsLinked todo (Attach.wake keys txid kind is_stored order (txid tx) (pushed tx p))
  unfolding Attach.wake
  wake-IsLinked tx todo p h = elim (Option-cases (get keys (txid tx) p.builder.inverse_deps)) [
    | inl nothing ↦
        rw (nothing, Attach.wake)
          (record {
            linked = λ c t w. elim (h.linked c t w) [
              | inl noted ↦ inl noted
              | inr (settled, queued) ↦
                  inr (rw (IsAttached-push p.attached tx t, settled) refl, queued)
            ];
            keyed = h.keyed;
            gone = λ e t settled. elim (Bool-cases (keys.same (txid tx) t)) [
              | inl same ↦
                  subst (λ k. get keys k p.builder.inverse_deps ≡ none)
                    (keys.same→eq (txid tx) t same) nothing
              | inr other ↦ h.gone e t (ground (arith, IsAttached-push p.attached tx t))
            ];
          })
    | inr (ids, e) ↦
        rw (e, Attach.wake)
          (record {
            linked = λ c t w. elim (h.linked c t w) [
              | inr (settled, queued) ↦ inr (
                rw (IsAttached-push p.attached tx t, settled) refl,
                ground (arith, contains-extend keys c p.queued ids),
              )
              | inl noted ↦ elim (Bool-cases (keys.same (txid tx) t)) [
                | inr other ↦
                    inl (rw (get-erase keys (txid tx) t p.builder.inverse_deps, other) noted)
                | inl same ↦ inr (
                  ground (arith, IsAttached-push p.attached tx t),
                  queued_now c ids todo p (cc (keys.same→eq (txid tx) t same)),
                )
              ]
            ];
            keyed = h.keyed;
            gone = λ no_exits t settled. elim (Bool-cases (keys.same (txid tx) t)) [
              | inl same ↦ rw (get-erase keys (txid tx) t p.builder.inverse_deps, same) refl
              | inr other ↦
                  rw (get-erase keys (txid tx) t p.builder.inverse_deps, other)
                    (h.gone no_exits t (ground (arith, IsAttached-push p.attached tx t)))
            ];
          })
  ]

  -- Fewer dependencies and stored transactions do no harm.
  pub shrunk-IsLinked :
      (todo : List T) (p : Pass T Tx) (s : GraphBuilder T Tx)
      → IsLinked todo p
      → s.inverse_deps ≡ p.builder.inverse_deps
      → ((c t : T) → Waits s c t → Waits p.builder c t)
      → ((c : T) (v : Tx × ℕ)
          → get keys c s.stored_txs ≡ some v
          → get keys c p.builder.stored_txs ≡ some v)
      → IsLinked todo (record p { builder = s })
  shrunk-IsLinked todo p s h same fewer stored = record {
    linked = λ c t w. rw same (h.linked c t (fewer c t w));
    keyed = λ c tx since e. h.keyed c tx since (stored c (tx, since) e);
    gone = λ no_exits t settled. rw same (h.gone no_exits t settled);
  }

  Waits-erase :
      (id c t : T) (s : GraphBuilder T Tx)
      → Waits (record s { deps = erase keys id s.deps }) c t
      → Waits s c t
  unfolding contains
  Waits-erase id c t s w = ground (arith, get-erase keys id c s.deps)

  -- Attaching a transaction whose id is `id`.
  pub attach-IsLinked :
      (tx : Tx) (id : T) (todo : List T) (p : Pass T Tx)
      → txid tx ≡ id
      → IsLinked todo p
      → IsLinked todo (Attach.attach keys txid kind is_stored order tx id p)
  unfolding Attach.attach
  attach-IsLinked tx id todo p named h = rw (← named) (
      wake-IsLinked tx todo _ (
        shrunk-IsLinked todo p (record (p.builder) { deps = erase keys (txid tx) p.builder.deps }) h
          refl (λ c t. Waits-erase (txid tx) c t p.builder) (λ c v e. e)))

  pub attach_stored-IsLinked :
      (id : T) (todo : List T) (p : Pass T Tx)
      → IsLinked todo p
      → IsLinked todo (Attach.attach_stored keys txid kind is_stored order id p)
  unfolding Attach.attach_stored
  attach_stored-IsLinked id todo p h = elim (Option-cases (get keys id p.builder.stored_txs)) [
    | inl missing ↦ rw (missing, Attach.attach_stored) h
    | inr ((tx, since), e) ↦
        rw (e, Attach.attach_stored)
          (attach-IsLinked tx id todo _ (h.keyed id tx since e) (
            shrunk-IsLinked todo p
              (record (p.builder) { stored_txs = erase keys id p.builder.stored_txs }) h refl
              (λ c t w. w) (λ c v e'. ground (arith, get-erase keys id c p.builder.stored_txs))))
  ]
