-- ===== src/Attach/Order.antt =====
-- Nothing is attached before its parents.
use lrc.Attach.Rules.{Holds, visit_all_rule}
use lrc.Common.{
  ℕ, ◌≡◌, ◌⊎◌, Bool, true, List, [], ◌∷◌, ◌++◌, map, Option, some, arith, inl, inr, refl,
  Bool-cases, append_assoc, append-nil, Option-cases, if◌then◌else◌, subst,
}
use lrc.Outcome.{ok, >>=-eq-ok}
use lrc.Keys.{KeyEq}
use lrc.Tables.{contains, get, erase, put, remove_all}
use lrc.Tables.Laws.{contains-append, get-erase, get-put, contains-remove_all}
use lrc.Attach.{GraphBuilder, Pass, Kind, parents}
use mathlib.Core.List.{map-append}
use lrc.Attach

-- `past` says which transactions were attached before; all that the storage has were.
module _ {T Tx : Type 0} (keys : KeyEq T) (txid : Tx → T) (kind : Tx → Kind T)
    (is_stored : T → Option Bool) (order : List T → List T) (past : T → Type 0)
    (past_stored : (t : T) → is_stored t ≡ some true → past t) where
  abbrev pub Settled : List Tx → T → Type 0
  Settled attached t = past t ⊎ (contains keys t (map txid attached) ≡ true)

  -- Each of the transactions stands behind its parents, where `seen` stands before them all.
  abbrev pub After : List Tx → List Tx → Type 0
  After seen [] = Unit {0}
  After seen (tx ∷ txs) =
      ((t : T) → contains keys t (parents (kind tx)) ≡ true → Settled seen t)
      × After (seen ++ (tx ∷ [])) txs

  -- What a stored transaction waits for is noted, or attached.
  abbrev pub Accounted : GraphBuilder T Tx → List Tx → Type 0
  Accounted s attached =
      (child : T) (tx : Tx) (since : ℕ) (t : T)
      → get keys child s.stored_txs ≡ some (tx, since)
      → contains keys t (parents (kind tx)) ≡ true
      → (contains keys t (Attach.deps_of keys txid kind is_stored order s child) ≡ true)
        ⊎ Settled attached t

  pub record IsOrdered (p : Pass T Tx) : Type 0 where
    pub after : After [] p.attached
    pub accounted : Accounted p.builder p.attached

  Settled-append : (xs ys : List Tx) (t : T) → Settled xs t → Settled (xs ++ ys) t
  Settled-append xs ys t (inl before) = inl before
  Settled-append xs ys t (inr h) =
      inr (rw (map-append txid xs ys, contains-append keys t (map txid xs) (map txid ys), h) refl)

  After-append :
      (seen txs : List Tx) (tx : Tx)
      → After seen txs
      → ((t : T) → contains keys t (parents (kind tx)) ≡ true → Settled (seen ++ txs) t)
      → After seen (txs ++ (tx ∷ []))
  After-append seen [] tx h settled = (rw (append-nil seen) at settled, tt)
  After-append seen (x ∷ txs) tx (first, h) settled = (
    first,
    After-append (seen ++ (x ∷ [])) txs tx h (rw (append_assoc seen (x ∷ []) txs) settled),
  )

  pub is_attached-Settled :
      (p : Pass T Tx) (t : T)
      → Attach.is_attached keys txid kind is_stored order p t ≡ ok true
      → Settled p.attached t
  unfolding Attach.is_attached
  is_attached-Settled p t e = elim (Bool-cases (contains keys t (map txid p.attached))) [
    | inl h ↦ inr h
    | inr h ↦ inl (past_stored t (ground arith))
  ]

  attached_among-Settled :
      (p : Pass T Tx) (t : T) (ids gone : List T)
      → Attach.attached_among keys txid kind is_stored order p ids ≡ ok gone
      → contains keys t gone ≡ true
      → Settled p.attached t
  unfolding Attach.attached_among contains
  attached_among-Settled p t [] gone e h = ground arith
  attached_among-Settled p t (id ∷ ids) gone e h =
      let (attached, asked, e') =
        >>=-eq-ok (Attach.is_attached keys txid kind is_stored order p id) _ e in
      let (rest, among, e'') =
        >>=-eq-ok (Attach.attached_among keys txid kind is_stored order p ids) _ e' in
      elim (Bool-cases attached) [
        | inl yes_it_is ↦ elim (Bool-cases (keys.same id t)) [
          | inl same ↦
              subst (Settled p.attached) (keys.same→eq id t same) (is_attached-Settled p id (cc))
          | inr other ↦ attached_among-Settled p t ids rest among (ground arith)
        ]
        | inr no_it_is_not ↦ attached_among-Settled p t ids rest among (ground arith)
      ]

  -- Whether the children of a transaction are queued changes nothing of this.
  pub wake-IsOrdered :
      (id : T) (p : Pass T Tx)
      → IsOrdered p
      → IsOrdered (Attach.wake keys txid kind is_stored order id p)
  unfolding Attach.wake
  wake-IsOrdered id p h = elim (Option-cases (get keys id p.builder.inverse_deps)) [
    | inl e ↦ rw (e, Attach.wake) h
    | inr (ids, e) ↦ rw (e, Attach.wake) (record { after = h.after; accounted = h.accounted })
  ]

  pub push-IsOrdered :
      (tx : Tx) (p : Pass T Tx)
      → IsOrdered p
      → ((t : T) → contains keys t (parents (kind tx)) ≡ true → Settled p.attached t)
      → IsOrdered (record p { attached = p.attached ++ (tx ∷ []) })
  push-IsOrdered tx p h settled = record {
    after = After-append [] p.attached tx h.after settled;
    accounted = λ child stored since t e among. elim (h.accounted child stored since t e among) [
      | inl waits ↦ inl waits
      | inr settled' ↦ inr (Settled-append p.attached (tx ∷ []) t settled')
    ];
  }

  deps_of-erase :
      (id child : T) (s : GraphBuilder T Tx)
      → Attach.deps_of keys txid kind is_stored order
          (record s { deps = erase keys id s.deps })
          child
        ≡ (if keys.same id child then [] else Attach.deps_of keys txid kind is_stored order s child)
  deps_of-erase id child s = ground (arith, get-erase keys id child s.deps)

  deps_of-put :
      (id child : T) (left : List T) (s : GraphBuilder T Tx)
      → Attach.deps_of keys txid kind is_stored order
          (record s { deps = put keys id left s.deps })
          child
        ≡ (if keys.same id child
            then left
            else Attach.deps_of keys txid kind is_stored order s child)
  deps_of-put id child left s = ground (arith, get-put keys id child left s.deps)

  pub nothing_waits :
      (id child t : T) (s : GraphBuilder T Tx)
      → keys.same id child ≡ true
      → Attach.deps_of keys txid kind is_stored order s id ≡ []
      → contains keys t (Attach.deps_of keys txid kind is_stored order s child) ≡ true
      → ⊥
  unfolding contains
  nothing_waits id child t s same empty waits = cc (keys.same→eq id child same)

  pub attach-IsOrdered :
      (tx : Tx) (id : T) (p : Pass T Tx)
      → IsOrdered p
      → ((t : T) → contains keys t (parents (kind tx)) ≡ true → Settled p.attached t)
      → Attach.deps_of keys txid kind is_stored order p.builder id ≡ []
      → IsOrdered (Attach.attach keys txid kind is_stored order tx id p)
  unfolding Attach.attach
  attach-IsOrdered tx id p h settled empty =
      let pushed = push-IsOrdered tx p h settled in
      wake-IsOrdered id _ (record {
        after = pushed.after;
        accounted = λ child stored since t e among.
            elim (pushed.accounted child stored since t e among) [
              | inl waits ↦ elim (Bool-cases (keys.same id child)) [
                | inl same ↦ absurd (nothing_waits id child t p.builder same empty waits)
                | inr other ↦ inl (rw (deps_of-erase id child p.builder, other) waits)
              ]
              | inr s ↦ inr s
            ];
      })

  attach_stored-IsOrdered :
      (id : T) (p : Pass T Tx)
      → IsOrdered p
      → Attach.deps_of keys txid kind is_stored order p.builder id ≡ []
      → IsOrdered (Attach.attach_stored keys txid kind is_stored order id p)
  unfolding Attach.attach_stored contains
  attach_stored-IsOrdered id p h empty = elim (Option-cases (get keys id p.builder.stored_txs)) [
    | inl missing ↦ rw (missing, Attach.attach_stored) h
    | inr ((tx, since), e) ↦
        rw (e, Attach.attach_stored)
          (attach-IsOrdered tx id _
            (record {
              after = h.after;
              accounted = λ child stored since' t e' among.
                  h.accounted child stored since' t
                    (ground (arith, get-erase keys id child p.builder.stored_txs, e')) among;
            })
            (λ t among. elim (h.accounted id tx since t e among) [
              | inl waits ↦ absurd (nothing_waits id id t p.builder (keys.same_refl id) empty waits)
              | inr settled ↦ settled
            ])
            empty)
  ]

  -- Dependencies that are attached may go.
  left_with-IsOrdered :
      (id : T) (p : Pass T Tx) (ids gone : List T)
      → IsOrdered p
      → get keys id p.builder.deps ≡ some ids
      → Attach.attached_among keys txid kind is_stored order p (order ids) ≡ ok gone
      → IsOrdered (Attach.left_with keys txid kind is_stored order id (remove_all keys gone ids) p)
  left_with-IsOrdered id p ids gone h e among = record {
    after = h.after;
    accounted = λ child stored since t e' from_it.
        elim (h.accounted child stored since t e' from_it) [
          | inr settled ↦ inr settled
          | inl waits ↦ elim (Bool-cases (keys.same id child)) [
            | inr other ↦
                inl (rw (deps_of-put id child (remove_all keys gone ids) p.builder, other) waits)
            | inl same ↦ elim (Bool-cases (contains keys t gone)) [
              | inl settled ↦ inr (attached_among-Settled p t (order ids) gone among settled)
              | inr left ↦ inl (
                  rw
                    (
                      deps_of-put id child (remove_all keys gone ids) p.builder,
                      same,
                      contains-remove_all keys t gone ids,
                      left,
                    )
                    (cc (keys.same→eq id child same)))
            ]
          ]
        ];
  }

  pub visit_all-IsOrdered :
      (ids : List T) (p : Pass T Tx)
      → IsOrdered p
      → Holds IsOrdered (Attach.visit_all keys txid kind is_stored order ids p)
  visit_all-IsOrdered =
      visit_all_rule keys txid kind is_stored order IsOrdered left_with-IsOrdered
        attach_stored-IsOrdered
