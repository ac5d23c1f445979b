-- ===== src/Attach/Liveness.antt =====
-- Nothing waits for an attached transaction.
use lrc.Common.{
  ℕ, ◌≡◌, ◌≢◌, Bool, true, false, List, [], map, Option, none, some, arith, inl, inr, refl, subst,
  sym, ap, All, All-Unit,
}
use lrc.Outcome.{ok}
use lrc.Keys.{KeyEq}
use lrc.Tables.{contains, get, or_empty}
use lrc.Attach.{GraphBuilder, Pass, Kind, spark_exit}
use lrc.Attach.Rules.{attach_txs_rule}
use lrc.Attach.Rounds.{round-IsLinked}
use lrc.Attach.Linked.{handle_checked-IsLinked}
use lrc.Attach
use lrc.Attach.Waking

module _ {T Tx : Type 0} (keys : KeyEq T) (txid : Tx → T) (kind : Tx → Kind T)
    (is_stored : T → Option Bool) (order : List T → List T)
    (contains-order : (t : T) (ids : List T)
      → contains keys t (order ids) ≡ contains keys t ids) where
  abbrev pub IsWaitingFor : GraphBuilder T Tx → T → T → Type 0
  IsWaitingFor s c t = contains keys t (Attach.deps_of keys txid kind is_stored order s c) ≡ true

  -- `inverse_deps` has every dependency the other way round, and a transaction is stored under its id.
  pub record IsWellFormed (s : GraphBuilder T Tx) : Type 0 where
    pub noted :
        (c t : T)
        → IsWaitingFor s c t
        → contains keys c (or_empty (get keys t s.inverse_deps)) ≡ true
    pub keyed :
        (c : T) (tx : Tx) (since : ℕ) → get keys c s.stored_txs ≡ some (tx, since) → txid tx ≡ c

  start-IsLinked :
      (exits : Bool) (s : GraphBuilder T Tx)
      → IsWellFormed s
      → Waking.IsLinked keys txid kind is_stored order exits []
          (Attach.start keys txid kind is_stored order s)
  unfolding contains
  start-IsLinked exits s h = record {
    linked = λ c t w. inl (h.noted c t w);
    keyed = h.keyed;
    gone = λ no_exits t settled. cc;
  }

  all_noted :
      (exits : Bool) (p : Pass T Tx)
      → Waking.IsLinked keys txid kind is_stored order exits [] p
      → p.queued ≡ []
      → (c t : T) → IsWaitingFor p.builder c t
      → contains keys c (or_empty (get keys t p.builder.inverse_deps)) ≡ true
  unfolding contains
  all_noted exits p h empty c t w = elim (h.linked c t w) [
    | inl noted ↦ noted
    | inr (settled, queued) ↦ ground (arith, ap (contains keys c) empty)
  ]

  none_waits :
      (c t : T) (s : GraphBuilder T Tx)
      → get keys t s.inverse_deps ≡ none
      → contains keys c (or_empty (get keys t s.inverse_deps)) ≡ true
      → ⊥
  unfolding contains
  none_waits c t s gone noted = cc

  -- Where no query fails, `attach_txs` keeps the builder well-formed: each dependency stands in
  -- `inverse_deps` too, and each stored transaction under its id.
  pub attach_txs-IsWellFormed :
      (now : ℕ) (txs : List Tx) (s s' : GraphBuilder T Tx) (sent : List Tx)
      → IsWellFormed s
      → Attach.attach_txs keys txid kind is_stored order now txs s ≡ some (ok (s', sent))
      → IsWellFormed s'
  attach_txs-IsWellFormed now txs s s' sent h e =
      let (p, linked, empty, same, all) =
        attach_txs_rule keys txid kind is_stored order
          (Waking.IsLinked keys txid kind is_stored order true []) (λ tx. Unit {0})
          (λ now tx p q.
            handle_checked-IsLinked keys txid kind is_stored order true contains-order now tx p
              (λ no_exits. cc))
          (round-IsLinked keys txid kind is_stored order true contains-order) now txs s s' sent
          (All-Unit txs) (start-IsLinked true s h) e in
      subst IsWellFormed same
        (record { noted = all_noted true p linked empty; keyed = linked.keyed })

  -- Let the builder be well-formed and no exit of Spark be in the batch. Where no query fails, no
  -- transaction waits for one that `attach_txs` sent as attached.
  pub attach_txs_wakes :
      (now : ℕ) (txs : List Tx) (s s' : GraphBuilder T Tx) (sent : List Tx)
      → All (λ tx. kind tx ≢ spark_exit) txs
      → IsWellFormed s
      → Attach.attach_txs keys txid kind is_stored order now txs s ≡ some (ok (s', sent))
      → (c t : T) → contains keys t (map txid sent) ≡ true
      → ¬ IsWaitingFor s' c t
  attach_txs_wakes now txs s s' sent no_exit h e c t settled w =
      let (p, linked, empty, same, all) =
        attach_txs_rule keys txid kind is_stored order
          (Waking.IsLinked keys txid kind is_stored order false []) (λ tx. kind tx ≢ spark_exit)
          (λ now tx p q.
            handle_checked-IsLinked keys txid kind is_stored order false contains-order now tx p
              (λ no_exits. q))
          (round-IsLinked keys txid kind is_stored order false contains-order) now txs s s' sent
          no_exit (start-IsLinked false s h) e in
      let before = subst (λ b. IsWaitingFor b c t) (sym same) w in
      let among = subst (λ l. contains keys t (map txid l) ≡ true) (sym all) settled in
      none_waits c t p.builder (linked.gone refl t among)
        (all_noted false p linked empty c t before)
