-- ===== src/Attach/Rounds.antt =====
-- The rounds of `attach_txs`: a visited transaction waits for nothing that is attached.
use lrc.Common.{
  ◌≡◌, Bool, true, ◌||◌, List, [], ◌∷◌, Option, some, arith, inl, inr, refl, Bool-cases,
  if◌then◌else◌, subst, sym, ap,
}
use lrc.Outcome.{ok, >>=-eq-ok, ok-injective}
use lrc.Keys.{KeyEq}
use lrc.Tables.{contains, remove_all, get}
use lrc.Tables.Laws.{contains-remove_all, get-put}
use lrc.Attach.{GraphBuilder, Pass, Kind}
use lrc.Attach.Rules.{Holds, Holds-bind, remove_attached_parents_cases, deps_of-left_with}
use lrc.Attach
use lrc.Attach.Waking

-- `order` goes through all members of a set.
module _ {T Tx : Type 0} (keys : KeyEq T) (txid : Tx → T) (kind : Tx → Kind T)
    (is_stored : T → Option Bool) (order : List T → List T) (exits : Bool)
    (contains-order : (t : T) (ids : List T)
      → contains keys t (order ids) ≡ contains keys t ids) where
  abbrev IsLinked : List T → Pass T Tx → Type 0
  IsLinked = Waking.IsLinked keys txid kind is_stored order exits

  abbrev Waits : GraphBuilder T Tx → T → T → Type 0
  Waits = Waking.Waits keys txid kind is_stored order exits

  abbrev IsAttached : List Tx → T → Type 0
  IsAttached = Waking.IsAttached keys txid kind is_stored order exits

  attached_among_all :
      (p : Pass T Tx) (t : T) (ids gone : List T)
      → IsAttached p.attached t
      → Attach.attached_among keys txid kind is_stored order p ids ≡ ok gone
      → contains keys t ids ≡ true
      → contains keys t gone ≡ true
  unfolding Attach.attached_among Attach.is_attached contains
  attached_among_all p t [] gone settled e h = cc
  attached_among_all p t (id ∷ ids) gone settled e h =
      let (attached, asked, e') =
        >>=-eq-ok (Attach.is_attached keys txid kind is_stored order p id) _ e in
      let (rest, among, e'') =
        >>=-eq-ok (Attach.attached_among keys txid kind is_stored order p ids) _ e' in
      elim (Bool-cases (keys.same id t)) [
        | inl same ↦
            let settled' = subst (IsAttached p.attached) (sym (keys.same→eq id t same)) settled in
            ground
              (arith, ok-injective {E = Pass T Tx} (if attached then id ∷ rest else rest) gone e'')
        | inr other ↦ ground (
          arith,
          attached_among_all p t ids rest,
          ok-injective {E = Pass T Tx} (if attached then id ∷ rest else rest) gone e'',
        )
      ]

  -- A transaction waits for nothing that is attached.
  abbrev Clean : T → Pass T Tx → Type 0
  Clean id p = (t : T) → Waits p.builder id t → IsAttached p.attached t → ⊥

  visited-IsLinked :
      (id : T) (todo : List T) (p : Pass T Tx)
      → Clean id p
      → IsLinked (id ∷ todo) p
      → IsLinked todo p
  unfolding contains
  visited-IsLinked id todo p clean h = record {
    linked = λ c t w. elim (h.linked c t w) [
      | inl noted ↦ inl noted
      | inr (settled, queued) ↦ elim (Bool-cases (keys.same id c)) [
        | inl same ↦
            absurd
              (clean t (subst (λ k. Waits p.builder k t) (sym (keys.same→eq id c same)) w) settled)
        | inr other ↦ inr (settled, ground arith)
      ]
    ];
    keyed = h.keyed;
    gone = h.gone;
  }

  Waits-left_with :
      (id c t : T) (ids gone : List T) (p : Pass T Tx)
      → get keys id p.builder.deps ≡ some ids
      → Waits
          (Attach.left_with keys txid kind is_stored order id (remove_all keys gone ids) p).builder
          c
          t
      → Waits p.builder c t
  Waits-left_with id c t ids gone p e w = elim (Bool-cases (keys.same id c)) [
    | inl same ↦
        let found : get keys c p.builder.deps ≡ some ids =
          subst (λ k. get keys k p.builder.deps ≡ some ids) (keys.same→eq id c same) e in
        ground (
          arith,
          get-put keys id c (remove_all keys gone ids) p.builder.deps,
          contains-remove_all keys t gone ids,
        )
    | inr other ↦ rw (get-put keys id c (remove_all keys gone ids) p.builder.deps, other) at w
  ]

  left-Clean :
      (id : T) (p : Pass T Tx) (ids gone : List T)
      → Attach.attached_among keys txid kind is_stored order p (order ids) ≡ ok gone
      → Clean id (Attach.left_with keys txid kind is_stored order id (remove_all keys gone ids) p)
  left-Clean id p ids gone among t w settled = ground (
    arith,
    ap (contains keys t)
        (deps_of-left_with keys txid kind is_stored order id (remove_all keys gone ids) p),
    contains-remove_all keys t gone ids,
    contains-order t ids,
    attached_among_all p t (order ids) gone settled among,
  )

  attach_left-IsLinked :
      (id : T) (left todo : List T) (p : Pass T Tx)
      → IsLinked todo p
      → IsLinked todo (
          if Attach.is_nil keys txid kind is_stored order left
          then Attach.attach_stored keys txid kind is_stored order id p
          else p)
  attach_left-IsLinked id [] todo p h =
      Waking.attach_stored-IsLinked keys txid kind is_stored order exits id todo p h
  attach_left-IsLinked id (t ∷ left) todo p h = h

  visit-IsLinked :
      (id : T) (todo : List T) (p : Pass T Tx)
      → IsLinked (id ∷ todo) p
      → Holds (IsLinked todo) (Attach.visit keys txid kind is_stored order id p)
  unfolding Attach.visit contains
  visit-IsLinked id todo p h =
      elim (remove_attached_parents_cases keys txid kind is_stored order id p) [
        | inl e ↦ rw e tt
        | inr (inl (e, missing)) ↦ rw e (
            Waking.attach_stored-IsLinked keys txid kind is_stored order exits id todo p
              (visited-IsLinked id todo p (λ t w settled. cc) h))
        | inr (inr (ids, gone, found, among, e)) ↦
            let left = remove_all keys gone ids in
            let q = Attach.left_with keys txid kind is_stored order id left p in
            let linked : IsLinked (id ∷ todo) q =
              Waking.shrunk-IsLinked keys txid kind is_stored order exits (id ∷ todo) p q.builder h
                refl (λ c t. Waits-left_with id c t ids gone p found) (λ c v e'. e') in
            rw e (
              attach_left-IsLinked id left todo q
                (visited-IsLinked id todo q (left-Clean id p ids gone among) linked))
      ]

  visit_all-IsLinked :
      (ids : List T) (p : Pass T Tx)
      → IsLinked ids p
      → Holds (IsLinked []) (Attach.visit_all keys txid kind is_stored order ids p)
  unfolding Attach.visit_all
  visit_all-IsLinked [] p h = h
  visit_all-IsLinked (id ∷ ids) p h =
      Holds-bind (IsLinked ids) (IsLinked []) (Attach.visit keys txid kind is_stored order id p) _
        (visit-IsLinked id ids p h) (visit_all-IsLinked ids)

  requeued :
      (c id : T) (ids : List T) (p : Pass T Tx)
      → p.queued ≡ id ∷ ids
      → (contains keys c [] || contains keys c p.queued) ≡ true
      → (contains keys c (order (id ∷ ids)) || contains keys c []) ≡ true
  unfolding contains
  requeued c id ids p e h = ground (arith, contains-order c (id ∷ ids), ap (contains keys c) e)

  -- A round leaves no transaction unvisited that waits for an attached one.
  pub round-IsLinked :
      (id : T) (ids : List T) (p : Pass T Tx)
      → p.queued ≡ id ∷ ids
      → IsLinked [] p
      → Holds (IsLinked []) (
          Attach.visit_all keys txid kind is_stored order
            (order (id ∷ ids))
            (record p { queued = [] }))
  round-IsLinked id ids p e h = visit_all-IsLinked (order (id ∷ ids)) _ (record {
    linked = λ c t w. elim (h.linked c t w) [
      | inl noted ↦ inl noted
      | inr (settled, queued) ↦ inr (settled, requeued c id ids p e queued)
    ];
    keyed = h.keyed;
    gone = h.gone;
  })
