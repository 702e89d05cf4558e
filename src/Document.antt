-- ===== src/Document.antt =====
-- crates/trustgrant-document: grant documents, as they are read and as they are validated.
pub mod Model
pub mod Raw
pub mod Selectors
pub mod Validate
pub mod SelectorShape
pub mod Shape
pub mod Validity
pub mod Validated
pub mod Transition
