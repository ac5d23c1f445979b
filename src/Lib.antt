-- ===== src/Lib.antt =====
-- LRC-20: the node's data, wire forms, checks, confirmations and graph of transactions.
--
-- The program is a node of the LRC-20 token protocol on Bitcoin. A token transaction is a Bitcoin
-- transaction together with receipt proofs, which say which outputs hold which amount of which token, or
-- together with an announcement in an OP_RETURN output. Nodes exchange and store both in consensus wire
-- forms; a transaction that arrives is first checked on its own, later against the chain and the storage.
-- The crate receipts holds the receipts and their proofs, the crate types the announcements, the
-- transactions and the data of Spark, the crate tx-check the checks; the crate tx-confirm lets
-- transactions wait for their confirmations. They are modelled in the build without the feature
-- bulletproof, which is the default.
--
-- Files and code:
--   Receipt, Receipt/Laws: crates/receipts/src/receipt.rs (TokenAmount, TokenPubkey, Receipt).
--   Proof, Proof/Wire, Proof/WireLaws, Proof/Metadata: crates/receipts/src/proof.rs, the data and
--     consensus.rs below crates/receipts/src/proof, crates/receipts/src/consensus.rs and metadata.rs.
--   Announcements: crates/types/src/announcements, one module for a kind of message, Message for
--     announcement.rs and mod.rs, Script for parse_op_return_script.
--   Transaction, Consensus: crates/types/src/transactions/mod.rs and crates/types/src/consensus.rs;
--     Consensus/Inventory also has the data of crates/types/src/messages/p2p.rs.
--   Spark: crates/types/src/spark (mod.rs, signature.rs, consensus.rs).
--   Checks: crates/tx-check/src/errors.rs and isolated_checks.rs; Amounts is the conservation rule.
--   Confirmator, Confirmator/Laws, Confirmator/Reorg, Confirmator/Waiting:
--     crates/tx-confirm/src/lib.rs; handle_new_block, handle_reorg and handle_tx_to_confirm have the
--     code's names, clean_up is clean_up_waiting_txs, waiting is extract_waiting_txs_from_block.
--   Attach: the two graph builders of crates/tx-attach/src as one program, attach_txs and what it calls;
--     Attach/Cleanup: handle_cleanup, which deletes from the storage in the builder of lib.rs and does not
--     in that of spark.rs, whose remove_tx is remove_outdated_tx; Attach/Lrc20 and Attach/Spark read the
--     transactions of lib.rs and of spark.rs; the other modules below Attach prove.
--   Tables: hash maps and hash sets.
--   Service: crates/tx-check/src/service.rs; Service/Transfers has check_spark_transfer, Service/Sums
--     check_spark_conservation_rules, Service/Finalization check_spark_tx_finalization,
--     Service/Issues check_spark_issue, Service/Freezes check_transfer,
--     Service/Announcements check_announcements and what it calls; the other modules prove.
--   Owner: find_owner_in_txinputs of isolated_checks.rs with crates/tx-check/src/script_parser.rs, which
--     the checks of announcements call; Owner/Laws, Owner/Reveals and Owner/Sound prove.
--   ReceiptKey: hash.rs and keys.rs of crates/receipts/src.
--   Codec, Outcome, Keys, Common: readers and codecs, results, keys, and shared lists and words.
--   Samples, Tests: concrete stand-ins for the crates that are parameters, and the theorems on them.
--
-- State and errors: the states of the confirmator, of the graph builders and of a batch of checks are
-- records, and a handler returns the new one, the messages it sends and whether it failed; the time and
-- what the Bitcoin client answers are arguments. The storage of the checking service is a record of
-- queries, each of which may fail; the one write among its checks, of a freeze, is part of the result. The
-- other code modelled here keeps no state but the position of a reader, which is the list of bytes not yet
-- read. A function that returns a Result is one with the constructors of its error type; the texts of
-- errors are kept where they are fixed. A panic is an error of its own. A write into memory cannot fail,
-- so an encoder is the list of bytes it writes.
--
-- Numbers and bounds: numbers are natural numbers, a word's range is a hypothesis where it matters, and
-- `as u32` and the unchecked sum of u128 are remainders, as in a release build. A BTreeMap is the list of
-- its entries in the order of its keys; a HashMap is the list of its entries in some order. Strings are
-- their UTF-8 bytes. The order in which a hash set is gone through is a parameter. The two loops
-- over work lists in Attach take fuel: attach_queued the number of entries of inverse_deps and one,
-- remove_waiting the number of pairs in it and one; that is enough, as both take out of inverse_deps
-- what gives them more work. All other functions are structurally recursive.
--
-- Parameters, for code outside the repository: the codecs of the bitcoin crate for primitive types
-- (BitcoinCodecs), its scripts (Scripts, ScriptKinds, Spending) and transactions (BitcoinTypes), the keys
-- and signatures of secp256k1 (Secp256k1, Signatures, KeyEq), hashes and tweaks of keys (Tweaks) and
-- serde_json (Json), each with the documented facts that the code relies on. That a JSON value is read
-- back from its text is no such fact: the round trips ask it of the metadata at hand.
-- Interfaces to parts of the repository that are not modelled: CheckableProof, the trait of that name; in
-- Service the hash of a token transaction, the check of a signature and check_p2tr_proof.
--
-- Not modelled: the checks of single proofs against scripts; of the checking service the exits of Spark,
-- signatures, freezes of Spark, the handlers of batches and the clean-up; the crates controller, storage,
-- indexers and dev-kit, which keep state over time; the confirmator's asynchronous loop over events and
-- timers; Spark hashes; bulletproofs; RPC, peer-to-peer and command line code; the copies of other
-- projects' libraries (bdk, bitcoin-client, jsonrpc).
pub mod Common
pub mod Outcome
pub mod Codec
pub mod Keys
pub mod Receipt
pub mod Announcements
pub mod Consensus
pub mod Proof
pub mod Transaction
pub mod Checks
pub mod Spark
pub mod Confirmator
pub mod Tables
pub mod Attach
pub mod ReceiptKey
pub mod Owner
pub mod Service
pub mod Samples
pub mod Tests
