-- ===== src/Ownership.antt =====
-- crates/trustgrant-ownership: who owns the resources that a grant speaks of.
pub mod Chain
pub mod Coverage
pub mod Validity
pub mod Verdict
pub mod Canonicalize
pub mod Verify
pub mod Signed
