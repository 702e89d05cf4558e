-- ===== src/Errors.antt =====
-- crates/trustgrant-error: the errors of every fallible operation, and the size limits.
pub mod Kinds
pub mod Limits
