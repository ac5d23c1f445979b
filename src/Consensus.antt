-- ===== src/Consensus.antt =====
-- crates/types/src/consensus.rs: the wire forms of options, maps, lists, transactions and inventories
-- over the codecs of their parts.
pub mod Wrappers
pub mod WrapperLaws
pub mod Transactions
pub mod TransactionLaws
pub mod RoundTrips
pub mod Inventory
