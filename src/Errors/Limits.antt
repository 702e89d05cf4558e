-- ===== src/Errors/Limits.antt =====
-- crates/trustgrant-error/src/limits.rs: the limits that the modelled code uses, and their tests.
use trustgrant.Prelude.{ℕ, ◌*◌, String, Result, ok, err, ltb, if◌then◌else◌}
use trustgrant.Prelude.Text.{Text, byte_len}
use trustgrant.Errors.Kinds.{
  TrustGrantError, collection_too_large, string_too_long, document_too_large,
}

abbrev pub max_resource_types : ℕ
max_resource_types = 64

abbrev pub max_audience_entries : ℕ
max_audience_entries = 64

abbrev pub max_selectors_per_scope : ℕ
max_selectors_per_scope = 32

abbrev pub max_selector_values_per_selector : ℕ
max_selector_values_per_selector = 32

abbrev pub max_selector_expressions_per_selector : ℕ
max_selector_expressions_per_selector = 16

abbrev pub max_operations_per_scope : ℕ
max_operations_per_scope = 32

abbrev pub max_ownership_chain_length : ℕ
max_ownership_chain_length = 32

abbrev pub max_request_selector_kinds : ℕ
max_request_selector_kinds = 32

abbrev pub max_request_values_per_kind : ℕ
max_request_values_per_kind = 32

abbrev pub max_authority_id_bytes : ℕ
max_authority_id_bytes = 1024

abbrev pub max_operation_name_bytes : ℕ
max_operation_name_bytes = 128

abbrev pub max_resource_type_name_bytes : ℕ
max_resource_type_name_bytes = 128

abbrev pub max_key_id_bytes : ℕ
max_key_id_bytes = 128

abbrev pub max_selector_kind_bytes : ℕ
max_selector_kind_bytes = 128

abbrev pub max_principal_kind_bytes : ℕ
max_principal_kind_bytes = 128

abbrev pub max_principal_id_bytes : ℕ
max_principal_id_bytes = 256

abbrev pub max_selector_value_bytes : ℕ
max_selector_value_bytes = 256

abbrev pub max_selector_expression_bytes : ℕ
max_selector_expression_bytes = 512

abbrev pub max_request_selector_value_bytes : ℕ
max_request_selector_value_bytes = 256

-- `actual_items > max_items`
unfoldable pub ensure_collection_limit : String → ℕ → ℕ → Result TrustGrantError (Unit {0})
ensure_collection_limit field actual_items max_items =
    if ltb max_items actual_items then err (collection_too_large field max_items) else ok tt

unfoldable pub ensure_string_limit : String → Text → ℕ → Result TrustGrantError (Unit {0})
unfolding byte_len
ensure_string_limit field value max_bytes =
    if ltb max_bytes (byte_len value) then err (string_too_long field max_bytes) else ok tt

abbrev pub max_algorithm_name_bytes : ℕ
max_algorithm_name_bytes = 64

abbrev pub max_public_key_material_bytes : ℕ
max_public_key_material_bytes = 4096

abbrev pub max_signature_profile_format_bytes : ℕ
max_signature_profile_format_bytes = 64

abbrev pub max_canonicalization_name_bytes : ℕ
max_canonicalization_name_bytes = 64

abbrev pub max_trustgrant_json_bytes : ℕ
max_trustgrant_json_bytes = 64 * 1024

abbrev pub max_ownership_transition_json_bytes : ℕ
max_ownership_transition_json_bytes = 32 * 1024

abbrev pub max_discovery_json_bytes : ℕ
max_discovery_json_bytes = 64 * 1024

abbrev pub max_delegated_principal_json_bytes : ℕ
max_delegated_principal_json_bytes = 32 * 1024

abbrev pub max_revocation_proof_json_bytes : ℕ
max_revocation_proof_json_bytes = 4 * 1024

abbrev pub max_discovery_keys : ℕ
max_discovery_keys = 64

abbrev pub max_revocation_endpoints : ℕ
max_revocation_endpoints = 16

abbrev pub max_bundle_discovery_documents : ℕ
max_bundle_discovery_documents = 64

abbrev pub max_bundle_delegated_principal_documents : ℕ
max_bundle_delegated_principal_documents = 128

abbrev pub max_bundle_revocation_proofs : ℕ
max_bundle_revocation_proofs = 64

abbrev pub max_bundle_ownership_transition_chains : ℕ
max_bundle_ownership_transition_chains = 64

unfoldable pub ensure_json_size : String → ℕ → ℕ → Result TrustGrantError (Unit {0})
ensure_json_size document actual_bytes max_bytes =
    if ltb max_bytes actual_bytes then err (document_too_large document max_bytes) else ok tt
