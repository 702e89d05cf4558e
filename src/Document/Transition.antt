-- ===== src/Document/Transition.antt =====
-- crates/trustgrant-document/src/ownership_transition.rs: documents of ownership transitions.
pub mod Raw
pub mod Validate
pub mod Equality
