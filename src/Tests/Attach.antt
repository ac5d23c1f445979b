-- ===== src/Tests/Attach.antt =====
-- The graph builder at concrete values: a transaction is its id with those that it spends.
use lrc.Common.{ℕ, ◌≡◌, ◌≢◌, Bool, true, false, List, [], ◌∷◌, Option, none, some, refl}
use lrc.Outcome.{ok}
use lrc.Samples.{keys, proof_of}
use lrc.Tables.{contains, insert, remove, extend, remove_all, get, erase, put}
use lrc.Transaction.{Lrc20TxType}
use lrc.Attach.Cleanup.{
  handle_cleanup, remove_outdated_tx, remove_waiting, remove_tx_from_deps,
  remove_outdated_txs_from_mempool, remove_from_inverse_deps, pairs,
}
use lrc.Attach.Cleanup.Ends.{handle_cleanup_ends}
use lrc.Attach.Cleanup.Deletions.{remove_outdated_tx_deletes_parent}
use lrc.Attach.{GraphBuilder, Kind}
use lrc.Attach.Ends.{attach_txs_ends}
use lrc.Attach.Liveness.{IsWellFormed, attach_txs-IsWellFormed, attach_txs_wakes, IsWaitingFor}
use lrc.Attach.Lrc20.{Checked, lrc20_kind, lrc20_txid, proven_parents}
use lrc.Attach.Order.{After, Accounted}
use lrc.Attach.Safety.{attach_txs_order}
use lrc.Proof.{is_empty_receiptproof}
use lrc.Attach

abbrev Tx : Type 0
Tx = Checked (ℕ × List ℕ) ℕ ℕ

abbrev id_of : Tx → ℕ
id_of = lrc20_txid keys (λ tx. tx.0) (λ tx. tx.1) (λ t. some false) (λ ids. ids)

abbrev kind_of : Tx → Kind ℕ
kind_of = lrc20_kind keys (λ tx. tx.0) (λ tx. tx.1) (λ t. some false) (λ ids. ids)

abbrev issue_1 : Tx
issue_1 = record {
  bitcoin_tx = (1, []);
  tx_type = Lrc20TxType.issue none (record { token_pubkey = 7; amount = 5 });
}

abbrev transfer_of : ℕ → ℕ → Tx
transfer_of child parent = record {
  bitcoin_tx = (child, parent ∷ []);
  tx_type = Lrc20TxType.transfer ((0, proof_of 5) ∷ []) [];
}

abbrev empty_builder : GraphBuilder ℕ Tx
empty_builder = record { inverse_deps = []; deps = []; stored_txs = [] }

abbrev waiting_builder : GraphBuilder ℕ Tx
waiting_builder = record {
  inverse_deps = (1, 2 ∷ []) ∷ [];
  deps = (2, 1 ∷ []) ∷ [];
  stored_txs = (2, (transfer_of 2 1, 0)) ∷ [];
}

abbrev not_stored : ℕ → Option Bool
not_stored t = some false

abbrev in_order : List ℕ → List ℕ
in_order ids = ids

-- A child that comes before its parent is attached behind it.
attach_child_first :
    Attach.attach_txs keys id_of kind_of not_stored in_order 0
      (transfer_of 2 1 ∷ issue_1 ∷ [])
      empty_builder
    ≡ some (ok (empty_builder, issue_1 ∷ transfer_of 2 1 ∷ []))
unfolding Attach.attach_txs Attach.handle_all Attach.handle_checked Attach.handle_transfer
    Attach.add_parents Attach.add_dep Attach.is_attached Attach.attach_or_store Attach.attach
    Attach.wake Attach.attach_queued Attach.visit_all Attach.visit Attach.remove_attached_parents
    Attach.attached_among Attach.attach_stored contains insert remove extend remove_all get erase
    put lrc20_kind proven_parents is_empty_receiptproof
attach_child_first = refl

-- A child alone waits, and its parent wakes it.
attach_child :
    Attach.attach_txs keys id_of kind_of not_stored in_order 0 (transfer_of 2 1 ∷ []) empty_builder
    ≡ some (ok (waiting_builder, []))
unfolding Attach.attach_txs Attach.handle_all Attach.handle_checked Attach.handle_transfer
    Attach.add_parents Attach.add_dep Attach.is_attached Attach.attach_or_store Attach.attach
    Attach.wake Attach.attach_queued Attach.visit_all Attach.visit Attach.remove_attached_parents
    Attach.attached_among Attach.attach_stored contains insert remove extend remove_all get erase
    put lrc20_kind proven_parents is_empty_receiptproof
attach_child = refl

attach_parent :
    Attach.attach_txs keys id_of kind_of not_stored in_order 0 (issue_1 ∷ []) waiting_builder
    ≡ some (ok (empty_builder, issue_1 ∷ transfer_of 2 1 ∷ []))
unfolding Attach.attach_txs Attach.handle_all Attach.handle_checked Attach.handle_transfer
    Attach.add_parents Attach.add_dep Attach.is_attached Attach.attach_or_store Attach.attach
    Attach.wake Attach.attach_queued Attach.visit_all Attach.visit Attach.remove_attached_parents
    Attach.attached_among Attach.attach_stored contains insert remove extend remove_all get erase
    put lrc20_kind proven_parents is_empty_receiptproof
attach_parent = refl

attach_txs_ends_example :
    Attach.attach_txs keys id_of kind_of not_stored in_order 0
      (transfer_of 2 1 ∷ [])
      waiting_builder
    ≢ none
attach_txs_ends_example =
    attach_txs_ends keys id_of kind_of not_stored in_order 0 (transfer_of 2 1 ∷ []) waiting_builder

no_past : (t : ℕ) → not_stored t ≡ some true → ⊥
no_past t e = cc

nothing_stored : Accounted keys id_of kind_of not_stored in_order (λ t. ⊥) no_past empty_builder []
unfolding get
nothing_stored child tx since t e among = cc

attach_txs_order_example :
    After keys id_of kind_of not_stored in_order
      (λ t. ⊥)
      no_past
      []
      (issue_1 ∷ transfer_of 2 1 ∷ [])
    × Accounted keys id_of kind_of not_stored in_order
        (λ t. ⊥)
        no_past
        empty_builder
        (issue_1 ∷ transfer_of 2 1 ∷ [])
attach_txs_order_example =
    attach_txs_order keys id_of kind_of not_stored in_order (λ t. ⊥) no_past 0
      (transfer_of 2 1 ∷ issue_1 ∷ []) empty_builder empty_builder (issue_1 ∷ transfer_of 2 1 ∷ [])
      nothing_stored attach_child_first

empty_builder-IsWellFormed :
    IsWellFormed keys id_of kind_of not_stored in_order (λ t ids. refl) empty_builder
unfolding get contains
empty_builder-IsWellFormed = record { noted = λ c t w. cc; keyed = λ c tx since e. cc }

waiting_builder-IsWellFormed :
    IsWellFormed keys id_of kind_of not_stored in_order (λ t ids. refl) waiting_builder
waiting_builder-IsWellFormed =
    attach_txs-IsWellFormed keys id_of kind_of not_stored in_order (λ t ids. refl) 0
      (transfer_of 2 1 ∷ []) empty_builder waiting_builder [] empty_builder-IsWellFormed
      attach_child

attach_txs-IsWellFormed_example :
    IsWellFormed keys id_of kind_of not_stored in_order (λ t ids. refl) empty_builder
attach_txs-IsWellFormed_example =
    attach_txs-IsWellFormed keys id_of kind_of not_stored in_order (λ t ids. refl) 0 (issue_1 ∷ [])
      waiting_builder empty_builder (issue_1 ∷ transfer_of 2 1 ∷ []) waiting_builder-IsWellFormed
      attach_parent

attach_txs_wakes_example :
    ¬ IsWaitingFor keys id_of kind_of not_stored in_order (λ t ids. refl) empty_builder 2 1
unfolding contains lrc20_kind
attach_txs_wakes_example =
    attach_txs_wakes keys id_of kind_of not_stored in_order (λ t ids. refl) 0 (issue_1 ∷ [])
      waiting_builder empty_builder (issue_1 ∷ transfer_of 2 1 ∷ []) ((λ e. cc), tt)
      waiting_builder-IsWellFormed attach_parent 2 1 refl

abbrev exit_1 : Tx
exit_1 = record { bitcoin_tx = (1, []); tx_type = Lrc20TxType.spark_exit [] }

handle_cleanup_ends_example :
    handle_cleanup keys (some (λ ids. true)) in_order 100 10 waiting_builder ≢ none
handle_cleanup_ends_example =
    handle_cleanup_ends keys (some (λ ids. true)) in_order (λ ids. refl) 100 10 waiting_builder

-- The removal of the child deletes the parent, too.
remove_child :
    remove_outdated_tx keys
      (some (λ ids. true))
      in_order
      2
      (record { builder = waiting_builder; deleted = [] })
    ≡ some (ok (record { builder = empty_builder; deleted = 2 ∷ 1 ∷ [] }))
unfolding remove_outdated_tx remove_waiting remove_tx_from_deps remove_outdated_txs_from_mempool
    remove_from_inverse_deps pairs contains remove get erase put
remove_child = refl

remove_outdated_tx_deletes_parent_example : contains keys 1 (2 ∷ 1 ∷ []) ≡ true
unfolding get contains
remove_outdated_tx_deletes_parent_example =
    remove_outdated_tx_deletes_parent keys (λ ids. true) in_order (λ t ids. refl) 2 1 (2 ∷ [])
      (record { builder = waiting_builder; deleted = [] })
      (record { builder = empty_builder; deleted = 2 ∷ 1 ∷ [] }) refl refl remove_child
