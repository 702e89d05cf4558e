-- ===== src/Canonical.antt =====
-- crates/trustgrant-verify/src/canonicalize.rs and crates/trustgrant-ownership/src/canonicalize.rs: the
-- functions that both files have, which write canonical JSON.
pub mod Writer
pub mod Fields
pub mod Unique
pub mod Values
pub mod Lists
pub mod Determined
