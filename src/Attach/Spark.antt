-- ===== src/Attach/Spark.antt =====
-- crates/tx-attach/src/spark.rs: `SparkGraphBuilder`, over token transactions. `hash` is the hash of
-- a token transaction, a parameter here.
use lrc.Common.{ℕ, Bool, List, map, Option}
use lrc.Outcome.{Result}
use lrc.Keys.{KeyEq}
use lrc.Spark.{TokenTransaction, TokenTransactionInput}
use lrc.Attach.{GraphBuilder, Kind}
use lrc.Attach

module _ {K G : Type 0} (keys : KeyEq (List ℕ)) (hash : TokenTransaction K G → List ℕ)
    (is_stored : List ℕ → Option Bool) (order : List (List ℕ) → List (List ℕ)) where
  unfoldable pub spark_kind : TokenTransaction K G → Kind (List ℕ)
  spark_kind tx = elim tx.input [
    | TokenTransactionInput.mint issuer signature timestamp ↦ Kind.issue
    | TokenTransactionInput.transfer leaves_to_spend ↦
        Kind.transfer (map (λ leaf. leaf.parent_output_hash) leaves_to_spend)
  ]

  abbrev pub spark_attach_txs :
      ℕ
      → List (TokenTransaction K G)
      → GraphBuilder (List ℕ) (TokenTransaction K G)
      → Option (
          Result
            (GraphBuilder (List ℕ) (TokenTransaction K G))
            (GraphBuilder (List ℕ) (TokenTransaction K G) × List (TokenTransaction K G)))
  spark_attach_txs = Attach.attach_txs keys hash spark_kind is_stored order
