-- ===== src/Errors/Kinds.antt =====
-- crates/trustgrant-error/src/trustgrant.rs. Every variant; a `&'static str` is a `String`, a `char`
-- its code point. The messages are left out.
use trustgrant.Prelude.{ℕ, String}
use trustgrant.Prelude.Text.{Text}

pub data TrustGrantError : Type 0 where
  empty_authority_id invalid_authority_id_missing_scheme : TrustGrantError
  invalid_selector_shape invalid_selector_expression_syntax : TrustGrantError
  duplicate_selector duplicate_key_id duplicate_operation_name : TrustGrantError
  duplicate_audience_authority missing_mutation_intent_id : TrustGrantError
  missing_expected_resource_version missing_resource_type_binding : TrustGrantError
  missing_template_id invalid_mutation_resource_binding : TrustGrantError
  invalid_mint_quantity resource_type_binding_mismatch : TrustGrantError
  reserved_operation_name invalid_json_document canonicalization_failure : TrustGrantError
  invalid_discovery_document invalid_delegated_principal_document : TrustGrantError
  invalid_revocation_proof_document invalid_ownership_transition_document : TrustGrantError
  signature_verification_failed : TrustGrantError
  ownership_transition_predecessor_signature_failed : TrustGrantError
  ownership_transition_successor_signature_failed signer_authority_mismatch : TrustGrantError
  key_id_mismatch discovery_authority_mismatch missing_signing_key : TrustGrantError
  delegation_not_supported ownership_origin_mismatch : TrustGrantError
  active_owning_authority_mismatch ownership_transition_origin_mismatch : TrustGrantError
  ownership_transition_active_owner_mismatch : TrustGrantError
  invalid_ownership_transition_chain ownership_transition_scope_mismatch : TrustGrantError
  signer_key_inactive signature_profile_mismatch issuer_principal_mismatch : TrustGrantError
  invalid_revocation_freshness_window invalid_revocation_policy : TrustGrantError
  stale_revocation_record insufficient_revocation_proof_finality : TrustGrantError
  verification_posture_requires_non_live_revocation : TrustGrantError
  missing_authority_discovery_document missing_delegated_principal_document : TrustGrantError
  missing_revocation_proof revocation_proof_grant_mismatch : TrustGrantError
  unexpected_revocation_proof_for_non_revocable_grant missing_id_separator : TrustGrantError
  invalid_id_uuid invalid_supersedes_for_first_revision : TrustGrantError
  missing_supersedes_for_non_first_ownership_transition_revision : TrustGrantError
  self_supersession invalid_ownership_transition_parties : TrustGrantError
  invalid_ownership_transition_scope : TrustGrantError
  invalid_ownership_transition_effective_at : TrustGrantError
  invalid_ownership_transition_acceptance_time : TrustGrantError
  unsupported_v0_wire_supersession_policy invalid_time_window : TrustGrantError
  invalid_key_validity_window zero_revision : TrustGrantError
  delegated_discovery_authority_mismatch delegated_principal_mismatch
        missing_ownership_transition_chain :
      TrustGrantError
  empty_string_field : String → TrustGrantError
  invalid_string_field_character : (field : String) → (character : ℕ) → TrustGrantError
  invalid_authority_id_character : ℕ → TrustGrantError
  invalid_scope_shape : String → TrustGrantError
  unsupported_selector_expression_predicate : Text → TrustGrantError
  document_too_large : (document : String) → (max_bytes : ℕ) → TrustGrantError
  collection_too_large : (field : String) → (max_items : ℕ) → TrustGrantError
  string_too_long : (field : String) → (max_bytes : ℕ) → TrustGrantError
  conflicting_proof_bundle_entry : String → TrustGrantError
  invalid_id_prefix : (expected_prefix : String) → TrustGrantError
  invalid_protocol_version : ℕ → TrustGrantError
  invalid_persisted_verified_grant_record : String → TrustGrantError
  unsupported_persisted_verified_grant_record_version : ℕ → TrustGrantError
