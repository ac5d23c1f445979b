-- ===== src/Attach/Transfers.antt =====
-- The first loop of `attach_txs` and the whole: nothing is attached before its parents.
use lrc.Attach.Rules.{Holds}
use lrc.Attach.Parents.{add_parents_rule, deps_of-add_dep}
use lrc.Common.{
  ℕ, ◌≡◌, ◌⊎◌, Bool, true, List, [], ◌∷◌, Option, some, arith, inl, inr, refl, Bool-cases,
  if◌then◌else◌, subst, false, List-cases, ap,
}
use lrc.Outcome.{ok, >>=-eq-ok, Result-cases}
use lrc.Keys.{KeyEq}
use lrc.Tables.{contains, put}
use lrc.Tables.Laws.{get-put}
use lrc.Attach.{Pass, Kind, parents, issue, transfer, announcement, spark_exit}
use lrc.Attach
use lrc.Attach.Order

module _ {T Tx : Type 0} (keys : KeyEq T) (txid : Tx → T) (kind : Tx → Kind T)
    (is_stored : T → Option Bool) (order : List T → List T) (past : T → Type 0)
    (past_stored : (t : T) → is_stored t ≡ some true → past t) where
  abbrev Settled : List Tx → T → Type 0
  Settled = Order.Settled keys txid kind is_stored order past past_stored

  abbrev IsOrdered : Pass T Tx → Type 0
  IsOrdered = Order.IsOrdered keys txid kind is_stored order past past_stored

  -- A parent is noted as a dependency, or attached.
  abbrev Covered : T → T → Pass T Tx → Type 0
  Covered child t p =
      (contains keys t (Attach.deps_of keys txid kind is_stored order p.builder child) ≡ true)
      ⊎ Settled p.attached t

  Covered-add_dep :
      (child t parent : T) (p : Pass T Tx)
      → Covered child t p
      → Covered child t (record p {
        builder = Attach.add_dep keys txid kind is_stored order child parent p.builder;
      })
  Covered-add_dep child t parent p (inr settled) = inr settled
  Covered-add_dep child t parent p (inl waits) = inl (
      rw (deps_of-add_dep keys txid kind is_stored order child parent child t p.builder)
        (ground arith))

  add_dep-IsOrdered :
      (child parent : T) (p : Pass T Tx)
      → IsOrdered p
      → IsOrdered (record p {
        builder = Attach.add_dep keys txid kind is_stored order child parent p.builder;
      })
  unfolding Attach.add_dep
  add_dep-IsOrdered child parent p h = record {
    after = h.after;
    accounted = λ c stored since t e among. elim (h.accounted c stored since t e among) [
      | inr settled ↦ inr settled
      | inl waits ↦ inl (
          ground (arith, deps_of-add_dep keys txid kind is_stored order child parent c t p.builder))
    ];
  }

  noted :
      (child t parent : T) (attached : Bool) (p : Pass T Tx)
      → keys.same parent t ≡ true
      → Attach.is_attached keys txid kind is_stored order p parent ≡ ok attached
      → Covered child t (
          if attached then p else record p {
            builder = Attach.add_dep keys txid kind is_stored order child parent p.builder;
          })
  noted child t parent true p same asked = inr (
      subst (Settled p.attached) (keys.same→eq parent t same)
        (Order.is_attached-Settled keys txid kind is_stored order past past_stored p parent asked))
  noted child t parent false p same asked = inl (
      rw
        (
          deps_of-add_dep keys txid kind is_stored order child parent child t p.builder,
          keys.same_refl child,
          same,
        )
        refl)

  -- Behind the loop each parent is covered.
  add_parents-Covered :
      (child t : T) (ids : List T) (p p' : Pass T Tx)
      → Attach.add_parents keys txid kind is_stored order child ids p ≡ ok p'
      → contains keys t ids ≡ true
      → Covered child t p'
  unfolding Attach.add_parents contains
  add_parents-Covered child t [] p p' e h = ground arith
  add_parents-Covered child t (parent ∷ ids) p p' e h =
      let (attached, asked, e') =
        >>=-eq-ok (Attach.is_attached keys txid kind is_stored order p parent) _ e in
      elim (Bool-cases (keys.same parent t)) [
        | inr other ↦ add_parents-Covered child t ids _ p' e' (ground arith)
        | inl same ↦ subst (Holds (Covered child t)) e' (
            add_parents_rule keys txid kind is_stored order (Covered child t) child
              (λ parent p fresh. Covered-add_dep child t parent p) ids _
              (noted child t parent attached p same asked))
      ]

  store-IsOrdered :
      (tx : Tx) (now : ℕ) (p : Pass T Tx)
      → IsOrdered p
      → ((t : T) → contains keys t (parents (kind tx)) ≡ true → Covered (txid tx) t p)
      → IsOrdered (record p {
        builder = record (p.builder) {
          stored_txs = put keys (txid tx) (tx, now) p.builder.stored_txs;
        };
      })
  store-IsOrdered tx now p h covered = record {
    after = h.after;
    accounted = λ child stored since t e among. elim (Bool-cases (keys.same (txid tx) child)) [
      | inl same ↦
          subst (λ c. Covered c t p) (keys.same→eq (txid tx) child same)
            (covered t
              (ground (arith, get-put keys (txid tx) child (tx, now) p.builder.stored_txs, e)))
      | inr other ↦
          h.accounted child stored since t
            (ground (arith, get-put keys (txid tx) child (tx, now) p.builder.stored_txs, e)) among
    ];
  }

  attach_or_store-IsOrdered :
      (tx : Tx) (now : ℕ) (p : Pass T Tx)
      → IsOrdered p
      → ((t : T) → contains keys t (parents (kind tx)) ≡ true → Covered (txid tx) t p)
      → IsOrdered (Attach.attach_or_store keys txid kind is_stored order tx now p)
  unfolding Attach.attach_or_store
  attach_or_store-IsOrdered tx now p h covered =
      elim (List-cases (Attach.deps_of keys txid kind is_stored order p.builder (txid tx))) [
        | inl empty ↦
            rw (empty, Attach.attach_or_store)
              (Order.attach-IsOrdered keys txid kind is_stored order past past_stored tx (txid tx) p
                h
                (λ t among. elim (covered t among) [
                  | inl waits ↦ absurd (
                      Order.nothing_waits keys txid kind is_stored order past past_stored (txid tx)
                        (txid tx) t p.builder (keys.same_refl (txid tx)) empty waits)
                  | inr settled ↦ settled
                ])
                empty)
        | inr (dep, deps, e) ↦ rw (e, Attach.attach_or_store) (store-IsOrdered tx now p h covered)
      ]

  handle_transfer-IsOrdered :
      (tx : Tx) (ids : List T) (now : ℕ) (p : Pass T Tx)
      → kind tx ≡ transfer ids
      → IsOrdered p
      → Holds IsOrdered (Attach.handle_transfer keys txid kind is_stored order tx ids now p)
  unfolding Attach.handle_transfer
  handle_transfer-IsOrdered tx ids now p e h =
      let added =
        add_parents_rule keys txid kind is_stored order IsOrdered (txid tx)
          (λ parent p fresh. add_dep-IsOrdered (txid tx) parent p) ids p h in
      elim (Result-cases (Attach.add_parents keys txid kind is_stored order (txid tx) ids p)) [
        | inr (q, failed) ↦ rw failed tt
        | inl (q, passed) ↦ rw passed (
            attach_or_store-IsOrdered tx now q (subst (Holds IsOrdered) passed added)
              (λ t among. add_parents-Covered (txid tx) t ids p q passed (rw e at among)))
      ]

  pub handle_checked-IsOrdered :
      (now : ℕ) (tx : Tx) (p : Pass T Tx)
      → IsOrdered p
      → Holds IsOrdered (Attach.handle_checked keys txid kind is_stored order now tx p)
  unfolding Attach.handle_checked contains
  handle_checked-IsOrdered now tx p h = go (kind tx) refl
    where
      go :
          (k : Kind T)
          → kind tx ≡ k
          → Holds IsOrdered (Attach.handle_checked keys txid kind is_stored order now tx p)
      go issue e =
          rw (e, Attach.handle_checked)
            (Order.wake-IsOrdered keys txid kind is_stored order past past_stored (txid tx) _ (
              Order.push-IsOrdered keys txid kind is_stored order past past_stored tx p h
                (λ t among. cc (ap parents e))))
      go (transfer ids) e =
          rw (e, Attach.handle_checked) (handle_transfer-IsOrdered tx ids now p e h)
      go announcement e = rw (e, Attach.handle_checked) h
      go spark_exit e =
          rw (e, Attach.handle_checked)
            (Order.push-IsOrdered keys txid kind is_stored order past past_stored tx p h
              (λ t among. cc (ap parents e)))
