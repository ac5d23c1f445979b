-- ===== src/Announcements.antt =====
-- crates/types/src/announcements: the messages that an issuer puts into an `OP_RETURN` output. The
-- children `TokenPubkey`, `TokenLogo`, `Freeze`, `Issue` and `Ownership` have one kind of message
-- each; `Message` is the sum of them (announcement.rs, mod.rs).
pub mod Errors
pub mod TokenPubkey
pub mod TokenLogo
pub mod TxFreeze
pub mod PubkeyFreeze
pub mod Issue
pub mod Ownership
pub mod Script
pub mod Message
