-- ===== src/Attach/Rules.antt =====
-- Rules for proofs about `attach_txs`: what holds of every step holds of the loops.
use lrc.Common.{
  if◌then◌else◌, ◌≡◌, ◌⊎◌, Bool, true, List, [], ◌∷◌, Option, none, some, inl, inr, Option-cases,
  arith, List-cases, subst, ℕ, zero, suc, All, length,
}
use lrc.Outcome.{Result, ok, err, ◌>>=◌, Result-cases}
use lrc.Keys.{KeyEq}
use lrc.Tables.{get, remove_all}
use lrc.Tables.Laws.{get-put}
use lrc.Attach
use mathlib.Core.Option

-- `P` holds of the state that a step leaves, where it does not fail.
abbrev pub Holds {ℓ} : {S : Type 0} → (S → Type ℓ) → Result S S → Type ℓ
Holds P (ok s) = P s
Holds P (err s) = Unit

pub Holds-bind {ℓ} :
    {S : Type 0} (P Q : S → Type ℓ) (first : Result S S) (next : S → Result S S)
    → Holds P first
    → ((s : S) → P s → Holds Q (next s))
    → Holds Q (first >>= next)
Holds-bind P Q (err s) next h keep = tt
Holds-bind P Q (ok s) next h keep = keep s h

module _ {T Tx : Type 0} (keys : KeyEq T) (txid : Tx → T) (kind : Tx → Attach.Kind T)
    (is_stored : T → Option Bool) (order : List T → List T) where
  -- A query that fails leaves the state as it is.
  pub is_attached_err :
      (p q : Attach.Pass T Tx) (id : T)
      → Attach.is_attached keys txid kind is_stored order p id ≡ err q
      → q ≡ p
  unfolding Attach.is_attached
  is_attached_err p q id e = ground arith

  pub attached_among_err :
      (p q : Attach.Pass T Tx) (ids : List T)
      → Attach.attached_among keys txid kind is_stored order p ids ≡ err q
      → q ≡ p
  unfolding Attach.attached_among
  attached_among_err p q [] e = cc
  attached_among_err p q (id ∷ ids) e =
      ground (arith, is_attached_err p q id, attached_among_err p q ids)

  -- What `remove_attached_parents` does.
  abbrev pub Removal :
      T → Attach.Pass T Tx → Result (Attach.Pass T Tx) (Attach.Pass T Tx × Bool) → Type 0
  Removal id p r =
      (r ≡ err p)
      ⊎ ((r ≡ ok (p, true)) × (get keys id p.builder.deps ≡ none)
          ⊎ ((ids : List T) × (gone : List T) × (get keys id p.builder.deps ≡ some ids)
              × (Attach.attached_among keys txid kind is_stored order p (order ids) ≡ ok gone)
              × (r
                  ≡ ok (
                    Attach.left_with keys txid kind is_stored order id (remove_all keys gone ids) p,
                    Attach.is_nil keys txid kind is_stored order (remove_all keys gone ids),
                  ))))

  pub remove_attached_parents_cases :
      (id : T) (p : Attach.Pass T Tx)
      → Removal id p (Attach.remove_attached_parents keys txid kind is_stored order id p)
  unfolding Attach.remove_attached_parents
  remove_attached_parents_cases id p = elim (Option-cases (get keys id p.builder.deps)) [
    | inl missing ↦ inr (inl (rw (missing, Attach.remove_attached_parents), missing))
    | inr (ids, e) ↦
        elim (Result-cases (Attach.attached_among keys txid kind is_stored order p (order ids))) [
          | inr (q, failed) ↦ inl (ground (arith, attached_among_err p q (order ids)))
          | inl (gone, found) ↦ inr (inr (ids, gone, e, found, ground arith))
        ]
  ]

  -- The dependencies that are left are those of the transaction.
  pub deps_of-left_with :
      (id : T) (left : List T) (p : Attach.Pass T Tx)
      → Attach.deps_of keys txid kind is_stored order
          (Attach.left_with keys txid kind is_stored order id left p).builder
          id
        ≡ left
  deps_of-left_with id left p = rw (get-put keys id id left p.builder.deps, keys.same_refl id)

  -- `visit` keeps what the removal of attached parents and the attaching keep.
  module _ {ℓ} (P : Attach.Pass T Tx → Type ℓ)
      (removed : (id : T) (p : Attach.Pass T Tx) (ids gone : List T)
        → P p
        → get keys id p.builder.deps ≡ some ids
        → Attach.attached_among keys txid kind is_stored order p (order ids) ≡ ok gone
        → P (Attach.left_with keys txid kind is_stored order id (remove_all keys gone ids) p))
      (attached : (id : T) (p : Attach.Pass T Tx)
        → P p
        → Attach.deps_of keys txid kind is_stored order p.builder id ≡ []
        → P (Attach.attach_stored keys txid kind is_stored order id p)) where
    attach_left_rule :
        (id : T) (left : List T) (p : Attach.Pass T Tx)
        → P p
        → Attach.deps_of keys txid kind is_stored order p.builder id ≡ left
        → P (
            if Attach.is_nil keys txid kind is_stored order left
            then Attach.attach_stored keys txid kind is_stored order id p
            else p)
    attach_left_rule id [] p h e = attached id p h e
    attach_left_rule id (t ∷ left) p h e = h

    pub visit_rule :
        (id : T) (p : Attach.Pass T Tx)
        → P p
        → Holds P (Attach.visit keys txid kind is_stored order id p)
    unfolding Attach.visit
    visit_rule id p h = elim (remove_attached_parents_cases id p) [
      | inl e ↦ rw e tt
      | inr (inl (e, missing)) ↦ rw e (attached id p h (rw missing))
      | inr (inr (ids, gone, found, among, e)) ↦ rw e (
          attach_left_rule id (remove_all keys gone ids) _ (removed id p ids gone h found among)
            (deps_of-left_with id (remove_all keys gone ids) p))
    ]

    pub visit_all_rule :
        (ids : List T) (p : Attach.Pass T Tx)
        → P p
        → Holds P (Attach.visit_all keys txid kind is_stored order ids p)
    unfolding Attach.visit_all
    visit_all_rule [] p h = h
    visit_all_rule (id ∷ ids) p h =
        Holds-bind P P (Attach.visit keys txid kind is_stored order id p) _ (visit_rule id p h)
          (visit_all_rule ids)

  pub attach_queued_done :
      (fuel : ℕ) (p : Attach.Pass T Tx)
      → p.queued ≡ []
      → Attach.attach_queued keys txid kind is_stored order fuel p ≡ some (ok p)
  unfolding Attach.attach_queued
  attach_queued_done zero p e = ground arith
  attach_queued_done (suc fuel) p e = ground arith

  -- What a round keeps, the loop over the queue keeps; and it leaves the queue empty.
  abbrev pub Ended {ℓ} :
      (Attach.Pass T Tx → Type ℓ) → Option (Result (Attach.Pass T Tx) (Attach.Pass T Tx)) → Type ℓ
  Ended P none = Unit
  Ended P (some (err p)) = Unit
  Ended P (some (ok p)) = P p × (p.queued ≡ [])

  pub attach_queued_rule {ℓ} :
      (P : Attach.Pass T Tx → Type ℓ)
      → ((id : T) (ids : List T) (p : Attach.Pass T Tx)
          → p.queued ≡ id ∷ ids
          → P p
          → Holds P (
              Attach.visit_all keys txid kind is_stored order
                (order (id ∷ ids))
                (record p { queued = [] })))
      → (fuel : ℕ) (p : Attach.Pass T Tx) → P p
      → Ended P (Attach.attach_queued keys txid kind is_stored order fuel p)
  unfolding Attach.attach_queued
  attach_queued_rule P round zero p h = elim (List-cases p.queued) [
    | inl empty ↦ rw (attach_queued_done zero p empty) (h, empty)
    | inr (id, ids, more) ↦ rw (more, Attach.attach_queued) tt
  ]
  attach_queued_rule P round (suc fuel) p h = elim (List-cases p.queued) [
    | inl empty ↦ rw (attach_queued_done (suc fuel) p empty) (h, empty)
    | inr (id, ids, more) ↦
        let kept = round id ids p more h in
        elim (Result-cases (
          Attach.visit_all keys txid kind is_stored order (order (id ∷ ids))
            (record p { queued = [] }))) [
              | inr (q, failed) ↦ rw (more, Attach.attach_queued, failed) tt
              | inl (q, passed) ↦
                  rw (more, Attach.attach_queued, passed)
                    (attach_queued_rule P round fuel q (subst (Holds P) passed kept))
            ]
  ]

  -- What each checked transaction with `Q` keeps, their loop keeps.
  pub handle_all_rule {ℓ κ} :
      (P : Attach.Pass T Tx → Type ℓ) (Q : Tx → Type κ)
      → ((now : ℕ) (tx : Tx) (p : Attach.Pass T Tx)
          → Q tx
          → P p
          → Holds P (Attach.handle_checked keys txid kind is_stored order now tx p))
      → (now : ℕ) (txs : List Tx) (p : Attach.Pass T Tx) → All Q txs
      → P p
      → Holds P (Attach.handle_all keys txid kind is_stored order now txs p)
  unfolding Attach.handle_all
  handle_all_rule P Q checked now [] p q h = h
  handle_all_rule P Q checked now (tx ∷ txs) p (q, qs) h =
      Holds-bind P P (Attach.handle_checked keys txid kind is_stored order now tx p) _
        (checked now tx p q h) (λ p'. handle_all_rule P Q checked now txs p' qs)

  -- The pass at whose end `attach_txs` returns the builder `s'` and the attached transactions.
  abbrev pub Final {ℓ} : (Attach.Pass T Tx → Type ℓ) → Attach.GraphBuilder T Tx → List Tx → Type ℓ
  Final P s' sent =
      (p : Attach.Pass T Tx) × P p × (p.queued ≡ []) × (p.builder ≡ s') × (p.attached ≡ sent)

  outcome-Final {ℓ} :
      (P : Attach.Pass T Tx → Type ℓ) (o : Option (Result (Attach.Pass T Tx) (Attach.Pass T Tx)))
      (s' : Attach.GraphBuilder T Tx) (sent : List Tx)
      → Ended P o
      → Option.map (Attach.outcome keys txid kind is_stored order) o ≡ some (ok (s', sent))
      → Final P s' sent
  outcome-Final P none s' sent h e = cc
  outcome-Final P (some (err p)) s' sent h e = cc
  outcome-Final P (some (ok p)) s' sent (h, empty) e = (p, h, empty, cc, cc)

  pub attach_txs_rule {ℓ κ} :
      (P : Attach.Pass T Tx → Type ℓ) (Q : Tx → Type κ)
      → ((now : ℕ) (tx : Tx) (p : Attach.Pass T Tx)
          → Q tx
          → P p
          → Holds P (Attach.handle_checked keys txid kind is_stored order now tx p))
      → ((id : T) (ids : List T) (p : Attach.Pass T Tx)
          → p.queued ≡ id ∷ ids
          → P p
          → Holds P (
              Attach.visit_all keys txid kind is_stored order
                (order (id ∷ ids))
                (record p { queued = [] })))
      → (now : ℕ) (txs : List Tx) (s s' : Attach.GraphBuilder T Tx) (sent : List Tx) → All Q txs
      → P (Attach.start keys txid kind is_stored order s)
      → Attach.attach_txs keys txid kind is_stored order now txs s ≡ some (ok (s', sent))
      → Final P s' sent
  unfolding Attach.attach_txs
  attach_txs_rule P Q checked round now txs s s' sent q h e =
      let handled =
        handle_all_rule P Q checked now txs (Attach.start keys txid kind is_stored order s) q h in
      elim (Result-cases (
        Attach.handle_all keys txid kind is_stored order now txs
          (Attach.start keys txid kind is_stored order s))) [
            | inr (p, failed) ↦ absurd (ground arith)
            | inl (p, passed) ↦
                outcome-Final P
                  (Attach.attach_queued keys txid kind is_stored order
                    (suc (length p.builder.inverse_deps)) p)
                  s' sent
                  (attach_queued_rule P round (suc (length p.builder.inverse_deps)) p
                    (subst (Holds P) passed handled))
                  (rw (passed, Attach.attach_txs) at e)
          ]
