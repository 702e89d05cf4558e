-- ===== src/Verify.antt =====
-- crates/trustgrant-verify: grants that passed verification.
pub mod Grant
pub mod Canonicalize
pub mod Policy
pub mod Consistency
pub mod Agreement
pub mod Freshness
pub mod Pipeline
pub mod Accepted
pub mod Bundle
pub mod Raw
pub mod Keys
pub mod Record
