-- ===== src/Attach/Ends.antt =====
-- The queue of `attach_txs` runs dry: a round that queues anything takes an entry of
-- `inverse_deps` away.
use lrc.Outcome.{Result-cases, ok}
use lrc.Attach.Rules.{Holds, visit_all_rule, attach_queued_done}
use lrc.Common.{
  ℕ, ◌≡◌, ◌≤◌, ◌<◌, ◌⊎◌, Bool, List, [], Option, length, arith, inl, inr, Option-cases, none, refl,
  suc, zero, ◌≢◌, List-cases, subst, some, ◌∷◌,
}
use lrc.Keys.{KeyEq}
use lrc.Tables.{get}
use lrc.Tables.Laws.{length-erase-some}
use lrc.Attach
use mathlib.Core.Option

map-ne-none : {A B : Type 0} (f : A → B) (o : Option A) → o ≢ none → Option.map f o ≢ none
map-ne-none f none h = absurd (h refl)
map-ne-none f (some a) h = λ e. cc

module _ {T Tx : Type 0} (keys : KeyEq T) (txid : Tx → T) (kind : Tx → Attach.Kind T)
    (is_stored : T → Option Bool) (order : List T → List T) where
  -- The number of transactions that others wait for.
  abbrev waited_for : Attach.Pass T Tx → ℕ
  waited_for p = length p.builder.inverse_deps

  -- Nothing new is waited for, and less where something is queued.
  abbrev Shrinks : ℕ → Attach.Pass T Tx → Type 0
  Shrinks n p = (waited_for p < n) ⊎ ((waited_for p ≤ n) × (p.queued ≡ []))

  wake-Shrinks :
      (n : ℕ) (id : T) (p : Attach.Pass T Tx)
      → Shrinks n p
      → Shrinks n (Attach.wake keys txid kind is_stored order id p)
  unfolding Attach.wake
  wake-Shrinks n id p h = elim (Option-cases (get keys id p.builder.inverse_deps)) [
    | inl none_waits ↦ rw (none_waits, Attach.wake) h
    | inr (ids, e) ↦ inl (ground (arith, length-erase-some keys id p.builder.inverse_deps ids))
  ]

  attach_stored-Shrinks :
      (n : ℕ) (id : T) (p : Attach.Pass T Tx)
      → Shrinks n p
      → Shrinks n (Attach.attach_stored keys txid kind is_stored order id p)
  unfolding Attach.attach_stored Attach.attach
  attach_stored-Shrinks n id p h = elim (Option-cases (get keys id p.builder.stored_txs)) [
    | inl missing ↦ rw (missing, Attach.attach_stored) h
    | inr ((tx, since), e) ↦ rw (e, Attach.attach_stored) (wake-Shrinks n id _ h)
  ]

  visit_all-Shrinks :
      (n : ℕ) (ids : List T) (p : Attach.Pass T Tx)
      → Shrinks n p
      → Holds (Shrinks n) (Attach.visit_all keys txid kind is_stored order ids p)
  visit_all-Shrinks n =
      visit_all_rule keys txid kind is_stored order (Shrinks n) (λ id p ids gone h e among. h)
        (λ id p h e. attach_stored-Shrinks n id p h)

  attach_queued_ends :
      (fuel : ℕ) (p : Attach.Pass T Tx)
      → waited_for p < fuel
      → Attach.attach_queued keys txid kind is_stored order fuel p ≢ none
  unfolding Attach.attach_queued
  attach_queued_ends zero p h = absurd (omega arith)
  attach_queued_ends (suc fuel) p h = elim (List-cases p.queued) [
    | inl empty ↦ cc (attach_queued_done keys txid kind is_stored order (suc fuel) p empty)
    | inr (id, ids, e) ↦
        let round =
          visit_all-Shrinks (waited_for p) (order (id ∷ ids)) (record p { queued = [] })
            (inr (omega arith, refl)) in
        elim (Result-cases (
          Attach.visit_all keys txid kind is_stored order (order (id ∷ ids))
            (record p { queued = [] }))) [
              | inr (q, failed) ↦ ground arith
              | inl (q, passed) ↦ elim (subst (Holds (Shrinks (waited_for p))) passed round) [
                | inl less ↦ ground (arith, attach_queued_ends fuel q (omega arith))
                | inr (same, empty) ↦
                    ground (arith, attach_queued_done keys txid kind is_stored order fuel q empty)
              ]
            ]
  ]

  -- `attach_txs` where no query fails in its first loop.
  pub attach_txs-handle_all :
      (now : ℕ) (txs : List Tx) (s : Attach.GraphBuilder T Tx) (p : Attach.Pass T Tx)
      → Attach.handle_all keys txid kind is_stored order now txs
          (Attach.start keys txid kind is_stored order s)
        ≡ ok p
      → Attach.attach_txs keys txid kind is_stored order now txs s
        ≡ Option.map (Attach.outcome keys txid kind is_stored order) (
            Attach.attach_queued keys txid kind is_stored order
              (suc (length p.builder.inverse_deps))
              p)
  unfolding Attach.attach_txs
  attach_txs-handle_all now txs s p e = rw (e, Attach.attach_txs)

  -- `attach_txs` ends, whatever transactions and builder it is given, and whichever queries fail.
  pub attach_txs_ends :
      (now : ℕ) (txs : List Tx) (s : Attach.GraphBuilder T Tx)
      → Attach.attach_txs keys txid kind is_stored order now txs s ≢ none
  unfolding Attach.attach_txs
  attach_txs_ends now txs s =
      elim (Result-cases (
        Attach.handle_all keys txid kind is_stored order now txs
          (Attach.start keys txid kind is_stored order s))) [
            | inr (q, failed) ↦ ground arith
            | inl (q, passed) ↦
                rw (attach_txs-handle_all now txs s q passed)
                  (map-ne-none _ _ (attach_queued_ends (suc (waited_for q)) q (omega arith)))
          ]
