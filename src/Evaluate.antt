-- ===== src/Evaluate.antt =====
-- crates/trustgrant-evaluate: may a verified grant serve a request, and the execution of mutations.
pub mod Context
pub mod Request
pub mod Decision
pub mod Engine
pub mod Authorization
pub mod Mutation
pub mod Execution
