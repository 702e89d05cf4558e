-- ===== src/Ownership/Canonicalize.antt =====
-- crates/trustgrant-ownership/src/canonicalize.rs: the bytes that the parties to a transition sign.
pub mod Parts
pub mod Documents
pub mod Determined
