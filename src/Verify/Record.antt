-- ===== src/Verify/Record.antt =====
-- crates/trustgrant-verify/src/record.rs: records of verified grants, as they are persisted.
pub mod Model
pub mod Read
pub mod Rehydrate
pub mod Write
pub mod Consistent
