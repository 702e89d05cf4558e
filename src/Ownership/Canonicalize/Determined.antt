-- ===== src/Ownership/Canonicalize/Determined.antt =====
-- canonicalize.rs: what the parties to a transition sign is determined by its bytes.
pub mod Parts
pub mod Documents
