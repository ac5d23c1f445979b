-- ===== src/Attach/Parents.antt =====
-- The loop of `handle_transfer` over the parents of a transaction.
use lrc.Common.{
  ◌&&◌, ◌≡◌, Bool, true, false, ◌||◌, List, [], ◌∷◌, Option, arith, inl, inr, if◌then◌else◌,
}
use lrc.Outcome.{Result-cases, ok}
use lrc.Keys.{KeyEq}
use lrc.Tables.{contains, insert}
use lrc.Tables.Laws.{contains-insert, get-put}
use lrc.Attach.{GraphBuilder, Pass, Kind}
use lrc.Attach.Rules.{Holds}
use lrc.Attach

module _ {T Tx : Type 0} (keys : KeyEq T) (txid : Tx → T) (kind : Tx → Kind T)
    (is_stored : T → Option Bool) (order : List T → List T) where
  abbrev pub added : T → T → Pass T Tx → Pass T Tx
  added child parent p = record p {
    builder = Attach.add_dep keys txid kind is_stored order child parent p.builder;
  }

  -- What every dependency on a transaction that is not attached keeps, the loop keeps.
  module _ {ℓ} (P : Pass T Tx → Type ℓ) (child : T)
      (keep : (parent : T) (p : Pass T Tx)
        → Attach.is_attached keys txid kind is_stored order p parent ≡ ok false
        → P p
        → P (added child parent p)) where
    kept :
        (parent : T) (attached : Bool) (p : Pass T Tx)
        → Attach.is_attached keys txid kind is_stored order p parent ≡ ok attached
        → P p
        → P (if attached then p else added child parent p)
    kept parent true p asked h = h
    kept parent false p asked h = keep parent p asked h

    pub add_parents_rule :
        (ids : List T) (p : Pass T Tx)
        → P p
        → Holds P (Attach.add_parents keys txid kind is_stored order child ids p)
    unfolding Attach.add_parents
    add_parents_rule [] p h = h
    add_parents_rule (parent ∷ ids) p h =
        elim (Result-cases (Attach.is_attached keys txid kind is_stored order p parent)) [
          | inr (q, failed) ↦ rw failed tt
          | inl (attached, asked) ↦
              rw asked (add_parents_rule ids _ (kept parent attached p asked h))
        ]

  -- A dependency that is noted stays noted, and the new one is.
  pub deps_of-add_dep :
      (child parent c t : T) (s : GraphBuilder T Tx)
      → contains keys t (
          Attach.deps_of keys txid kind is_stored order
            (Attach.add_dep keys txid kind is_stored order child parent s)
            c)
        ≡ ((keys.same child c && keys.same parent t)
            || contains keys t (Attach.deps_of keys txid kind is_stored order s c))
  unfolding Attach.add_dep
  deps_of-add_dep child parent c t s = ground (
    arith,
    get-put keys child c
        (insert keys parent (Attach.deps_of keys txid kind is_stored order s child)) s.deps,
    contains-insert keys parent t (Attach.deps_of keys txid kind is_stored order s child),
    keys.same→eq child c,
  )
