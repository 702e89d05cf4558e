-- ===== src/Verify/Canonicalize.antt =====
-- crates/trustgrant-verify/src/canonicalize.rs: the canonical bytes of a grant document.
pub mod Scopes
pub mod Types
pub mod Document
pub mod Determined
