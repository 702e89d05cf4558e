-- ===== src/Ownership/Canonicalize/Documents.antt =====
-- canonicalize.rs: what the predecessor and the successor sign.
use trustgrant.Domain.Canonicalization.{CanonicalizationProfile, rfc8785}
use trustgrant.Document.Transition.Raw.{RawOwnershipTransitionDocument}
use trustgrant.Canonical.Writer.{Written, Formats, ◌then◌, write_bytes}
use trustgrant.Canonical.Fields.{
  write_json_string_field, write_u64_field, write_datetime_field, write_optional_string_field,
}
use trustgrant.Ownership.Canonicalize.Parts.{
  write_resource_scope_field, write_global_constraints_field, write_signature_field,
  write_acceptance_field,
}

module _ (formats : Formats) where
  unfoldable pub write_transition_proposal : RawOwnershipTransitionDocument → Written
  unfolding ◌then◌ write_bytes write_resource_scope_field write_datetime_field
      write_json_string_field write_global_constraints_field write_u64_field
      write_optional_string_field
  write_transition_proposal raw =
      write_bytes "{"
      then write_resource_scope_field formats "canonical_resource_scope"
          raw.canonical_resource_scope
      then write_bytes ","
      then write_datetime_field formats "effective_at" raw.effective_at
      then write_bytes ","
      then write_json_string_field formats "from_authority" raw.from_authority
      then write_bytes ","
      then write_global_constraints_field formats "global_constraints" raw.global_constraints
      then write_bytes ","
      then write_json_string_field formats "origin_authority" raw.origin_authority
      then write_bytes ","
      then write_u64_field formats "revision" raw.revision
      then write_bytes ","
      then write_optional_string_field formats "supersedes_transition_id"
          raw.supersedes_transition_id
      then write_bytes ","
      then write_json_string_field formats "to_authority" raw.to_authority
      then write_bytes ","
      then write_json_string_field formats "transition_id" raw.transition_id
      then write_bytes ","
      then write_json_string_field formats "transition_series_id" raw.transition_series_id
      then write_bytes ","
      then write_u64_field formats "version" raw.version
      then write_bytes "}"

  unfoldable pub write_transition_acceptance : RawOwnershipTransitionDocument → Written
  unfolding ◌then◌ write_bytes write_resource_scope_field write_datetime_field
      write_json_string_field write_global_constraints_field write_u64_field
      write_optional_string_field write_signature_field write_acceptance_field
  write_transition_acceptance raw =
      write_bytes "{"
      then write_resource_scope_field formats "canonical_resource_scope"
          raw.canonical_resource_scope
      then write_bytes ","
      then write_datetime_field formats "effective_at" raw.effective_at
      then write_bytes ","
      then write_json_string_field formats "from_authority" raw.from_authority
      then write_bytes ","
      then write_global_constraints_field formats "global_constraints" raw.global_constraints
      then write_bytes ","
      then write_json_string_field formats "origin_authority" raw.origin_authority
      then write_bytes ","
      then write_signature_field formats "predecessor_signature" raw.predecessor_signature
      then write_bytes ","
      then write_u64_field formats "revision" raw.revision
      then write_bytes ","
      then write_acceptance_field formats "successor_acceptance" raw.successor_acceptance
      then write_bytes ","
      then write_optional_string_field formats "supersedes_transition_id"
          raw.supersedes_transition_id
      then write_bytes ","
      then write_json_string_field formats "to_authority" raw.to_authority
      then write_bytes ","
      then write_json_string_field formats "transition_id" raw.transition_id
      then write_bytes ","
      then write_json_string_field formats "transition_series_id" raw.transition_series_id
      then write_bytes ","
      then write_u64_field formats "version" raw.version
      then write_bytes "}"

  unfoldable pub canonicalize_transition_proposal :
      RawOwnershipTransitionDocument → CanonicalizationProfile → Written
  unfolding write_transition_proposal
  canonicalize_transition_proposal raw rfc8785 = write_transition_proposal raw

  unfoldable pub canonicalize_transition_acceptance :
      RawOwnershipTransitionDocument → CanonicalizationProfile → Written
  unfolding write_transition_acceptance
  canonicalize_transition_acceptance raw rfc8785 = write_transition_acceptance raw
