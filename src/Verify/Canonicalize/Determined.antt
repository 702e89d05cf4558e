-- ===== src/Verify/Canonicalize/Determined.antt =====
-- canonicalize.rs: the canonical bytes determine what is signed.
pub mod Scopes
pub mod Types
pub mod Parts
pub mod Document
