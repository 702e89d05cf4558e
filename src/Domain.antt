-- ===== src/Domain.antt =====
-- crates/trustgrant-domain: the value types that the other crates share.
pub mod Ids
pub mod Names
pub mod Authority
pub mod Lineage
pub mod Expression
pub mod Ownership
pub mod Canonicalization
