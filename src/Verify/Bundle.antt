-- ===== src/Verify/Bundle.antt =====
-- crates/trustgrant-verify/src/bundle.rs: proofs that are collected beforehand, as the sources of a
-- verification. `add_seconds` is that of Revocation.Proof.
pub mod Proof
pub mod Store
pub mod Sources
pub mod Laws
pub mod Refinement
pub mod Bounds
