-- ===== src/Issue.antt =====
-- crates/trustgrant-issue/src: drafts of grants, which an issuer signs.
pub mod Draft
pub mod Laws
