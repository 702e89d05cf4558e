-- ===== src/Verify/Canonicalize/Types.antt =====
-- canonicalize.rs: resource types.
use trustgrant.Prelude.{String, Option, List}
use trustgrant.Prelude.Text.{Text}
use trustgrant.Document.Raw.{
  RawTypeCapabilities, RawMintingConstraints, RawTypeConstraints, RawOperationScope,
  RawResourceType, RawResourceScope,
}
use trustgrant.Canonical.Writer.{
  Written, Formats, ◌then◌, write_bytes, write_optional, write_separated, write_json_string,
}
use trustgrant.Canonical.Fields.{
  write_field_name, write_bool_field, write_optional_bool_field, write_optional_u64_field,
  write_string_array_field,
}
use trustgrant.Verify.Canonicalize.Scopes.{write_selectors_field, write_audience_scope_field}

module _ (formats : Formats) where
  unfoldable pub write_type_capabilities_field : String → RawTypeCapabilities → Written
  unfolding ◌then◌ write_bytes write_field_name write_optional_bool_field
  write_type_capabilities_field field_name capabilities =
      write_field_name formats field_name
      then write_bytes "{"
      then write_optional_bool_field formats "mint" capabilities.mint
      then write_bytes ","
      then write_optional_bool_field formats "recognize" capabilities.recognize
      then write_bytes "}"

  unfoldable pub write_minting_constraints_field : String → RawMintingConstraints → Written
  unfolding ◌then◌ write_bytes write_field_name write_optional_u64_field
  write_minting_constraints_field field_name constraints =
      write_field_name formats field_name
      then write_bytes "{"
      then write_optional_u64_field formats "max_per_user" constraints.max_per_user
      then write_bytes ","
      then write_optional_u64_field formats "max_total" constraints.max_total
      then write_bytes "}"

  unfoldable pub write_type_constraints_field : String → RawTypeConstraints → Written
  unfolding ◌then◌ write_bytes write_field_name write_audience_scope_field
      write_minting_constraints_field
  write_type_constraints_field field_name constraints =
      write_field_name formats field_name
      then write_bytes "{"
      then write_audience_scope_field formats "audience_scope" constraints.audience_scope
      then write_bytes ","
      then write_minting_constraints_field "minting" constraints.minting
      then write_bytes "}"

  unfoldable pub write_operation_scope : RawOperationScope → Written
  unfolding ◌then◌ write_bytes write_string_array_field
  write_operation_scope operation_scope =
      write_bytes "{"
      then write_string_array_field formats "allow" operation_scope.allow
      then write_bytes ","
      then write_string_array_field formats "deny" operation_scope.deny
      then write_bytes "}"

  unfoldable pub write_operation_scope_field : String → Option RawOperationScope → Written
  unfolding ◌then◌ write_field_name write_optional write_operation_scope
  write_operation_scope_field field_name operation_scope =
      write_field_name formats field_name then write_optional write_operation_scope operation_scope

  unfoldable pub write_resource_type : RawResourceType → Written
  unfolding ◌then◌ write_bytes write_bool_field write_selectors_field write_type_capabilities_field
      write_type_constraints_field write_operation_scope_field
  write_resource_type resource_type =
      write_bytes "{"
      then write_bool_field formats "all" resource_type.all
      then write_bytes ","
      then write_selectors_field formats "allow" resource_type.allow
      then write_bytes ","
      then write_type_capabilities_field "capabilities" resource_type.capabilities
      then write_bytes ","
      then write_type_constraints_field "constraints" resource_type.constraints
      then write_bytes ","
      then write_selectors_field formats "deny" resource_type.deny
      then write_bytes ","
      then write_operation_scope_field "operations" resource_type.operations
      then write_bytes "}"

  -- An entry of the map.
  unfoldable pub write_resource_type_entry : Text × RawResourceType → Written
  unfolding ◌then◌ write_bytes write_json_string write_resource_type
  write_resource_type_entry (name, resource_type) =
      write_json_string formats name then write_bytes ":" then write_resource_type resource_type

  unfoldable pub write_resource_type_map_field : String → List (Text × RawResourceType) → Written
  unfolding ◌then◌ write_bytes write_field_name write_separated write_resource_type_entry
  write_resource_type_map_field field_name resource_types =
      write_field_name formats field_name
      then write_bytes "{"
      then write_separated write_resource_type_entry resource_types
      then write_bytes "}"

  unfoldable pub write_resource_scope_field : String → RawResourceScope → Written
  unfolding ◌then◌ write_bytes write_field_name write_resource_type_map_field
  write_resource_scope_field field_name resource_scope =
      write_field_name formats field_name
      then write_bytes "{"
      then write_resource_type_map_field "types" resource_scope.types
      then write_bytes "}"
