-- ===== src/Verify/Canonicalize/Document.antt =====
-- canonicalize.rs: the bytes of a grant document that are signed.
use trustgrant.Prelude.{String, Option}
use trustgrant.Prelude.Text.{codes}
use trustgrant.Document.Model.{PostRevocationEffect, block_all, block_minting_only}
use trustgrant.Document.Raw.{
  RawTimeWindow, RawGlobalConstraints, RawRevocation, RawPrincipal, RawSupersessionPolicy, coexist,
  supersede_previous, RawTrustGrantDocument,
}
use trustgrant.Domain.Canonicalization.{CanonicalizationProfile, rfc8785}
use trustgrant.Canonical.Writer.{
  Written, Formats, ◌then◌, write_bytes, write_optional, write_json_string,
}
use trustgrant.Canonical.Fields.{
  write_field_name, write_json_string_field, write_bool_field, write_u64_field,
  write_datetime_field, write_optional_string_field,
}
use trustgrant.Verify.Canonicalize.Scopes.{
  write_scope_field, write_capabilities_field, write_audience_scope_field,
}
use trustgrant.Verify.Canonicalize.Types.{write_resource_scope_field}

-- `RawSupersessionPolicy::as_str` (raw.rs)
abbrev pub policy_name : RawSupersessionPolicy → String
policy_name coexist = "coexist"
policy_name supersede_previous = "supersede_previous"

abbrev pub effect_name : PostRevocationEffect → String
effect_name block_all = "block_all"
effect_name block_minting_only = "block_minting_only"

module _ (formats : Formats) where
  unfoldable pub write_time_window : RawTimeWindow → Written
  unfolding ◌then◌ write_bytes write_datetime_field
  write_time_window time_window =
      write_bytes "{"
      then write_datetime_field formats "not_after" time_window.not_after
      then write_bytes ","
      then write_datetime_field formats "not_before" time_window.not_before
      then write_bytes "}"

  unfoldable pub write_time_window_field : String → Option RawTimeWindow → Written
  unfolding ◌then◌ write_field_name write_optional write_time_window
  write_time_window_field field_name time_window =
      write_field_name formats field_name then write_optional write_time_window time_window

  unfoldable pub write_global_constraints : RawGlobalConstraints → Written
  unfolding ◌then◌ write_bytes write_time_window_field
  write_global_constraints constraints =
      write_bytes "{" then write_time_window_field "time" constraints.time then write_bytes "}"

  unfoldable pub write_global_constraints_field : String → Option RawGlobalConstraints → Written
  unfolding ◌then◌ write_field_name write_optional write_global_constraints
  write_global_constraints_field field_name constraints =
      write_field_name formats field_name then write_optional write_global_constraints constraints

  unfoldable pub write_revocation : RawRevocation → Written
  unfolding ◌then◌ write_bytes write_json_string_field write_bool_field
  write_revocation revocation =
      write_bytes "{"
      then write_json_string_field formats "post_revocation_effect"
          (codes (effect_name revocation.post_revocation_effect))
      then write_bytes ","
      then write_bool_field formats "revocable" revocation.revocable
      then write_bytes ","
      then write_json_string_field formats "revocation_endpoint" revocation.revocation_endpoint
      then write_bytes "}"

  unfoldable pub write_revocation_field : String → Option RawRevocation → Written
  unfolding ◌then◌ write_field_name write_optional write_revocation
  write_revocation_field field_name revocation =
      write_field_name formats field_name then write_optional write_revocation revocation

  unfoldable pub write_principal : RawPrincipal → Written
  unfolding ◌then◌ write_bytes write_json_string_field
  write_principal principal =
      write_bytes "{"
      then write_json_string_field formats "id" principal.id
      then write_bytes ","
      then write_json_string_field formats "kind" principal.kind
      then write_bytes "}"

  unfoldable pub write_principal_field : String → Option RawPrincipal → Written
  unfolding ◌then◌ write_field_name write_optional write_principal
  write_principal_field field_name principal =
      write_field_name formats field_name then write_optional write_principal principal

  unfoldable pub write_supersession_policy_field : String → RawSupersessionPolicy → Written
  unfolding ◌then◌ write_field_name write_json_string
  write_supersession_policy_field field_name policy =
      write_field_name formats field_name
      then write_json_string formats (codes (policy_name policy))

  unfoldable pub write_trustgrant_document : RawTrustGrantDocument → Written
  unfolding ◌then◌ write_bytes write_json_string_field write_capabilities_field
      write_audience_scope_field write_global_constraints_field write_datetime_field
      write_principal_field write_resource_scope_field write_u64_field write_revocation_field
      write_optional_string_field write_supersession_policy_field write_scope_field
  write_trustgrant_document raw =
      write_bytes "{"
      then write_json_string_field formats "active_owning_authority" raw.active_owning_authority
      then write_bytes ","
      then write_capabilities_field formats "capabilities" raw.capabilities
      then write_bytes ","
      then write_audience_scope_field formats "default_audience_scope" raw.default_audience_scope
      then write_bytes ","
      then write_global_constraints_field "global_constraints" raw.global_constraints
      then write_bytes ","
      then write_json_string_field formats "grant_series_id" raw.grant_series_id
      then write_bytes ","
      then write_datetime_field formats "issued_at" raw.issued_at
      then write_bytes ","
      then write_json_string_field formats "issuer_authority" raw.issuer_authority
      then write_bytes ","
      then write_principal_field "issuer_principal" raw.issuer_principal
      then write_bytes ","
      then write_json_string_field formats "key_id" raw.key_id
      then write_bytes ","
      then write_json_string_field formats "origin_authority" raw.origin_authority
      then write_bytes ","
      then write_resource_scope_field formats "resource_scope" raw.resource_scope
      then write_bytes ","
      then write_u64_field formats "revision" raw.revision
      then write_bytes ","
      then write_revocation_field "revocation" raw.revocation
      then write_bytes ","
      then write_optional_string_field formats "supersedes" raw.supersedes
      then write_bytes ","
      then write_supersession_policy_field "supersession_policy" raw.supersession_policy
      then write_bytes ","
      then write_scope_field formats "target_scope" raw.target_scope
      then write_bytes ","
      then write_json_string_field formats "trustgrant_id" raw.trustgrant_id
      then write_bytes ","
      then write_u64_field formats "version" raw.version
      then write_bytes "}"

  unfoldable pub canonicalize_trustgrant : RawTrustGrantDocument → CanonicalizationProfile → Written
  unfolding write_trustgrant_document
  canonicalize_trustgrant raw rfc8785 = write_trustgrant_document raw
