-- ===== src/Ownership/Canonicalize/Parts.antt =====
-- canonicalize.rs: the parts of a transition's bytes.
-- The writers of single fields are those of Canonical.
use trustgrant.Prelude.{String, Option, List}
use trustgrant.Prelude.Text.{Text}
use trustgrant.Document.Transition.Raw.{
  RawOwnershipTransitionSelector, RawOwnershipTransitionResourceType,
  RawOwnershipTransitionResourceScope, RawOwnershipTransitionTimeWindow,
  RawOwnershipTransitionGlobalConstraints, RawOwnershipTransitionSignature,
  RawOwnershipTransitionAcceptance,
}
use trustgrant.Canonical.Writer.{
  Written, Formats, ◌then◌, write_bytes, write_optional, write_array, write_separated,
  write_json_string,
}
use trustgrant.Canonical.Fields.{
  write_field_name, write_json_string_field, write_bool_field, write_datetime_field,
  write_string_array_field,
}

module _ (formats : Formats) where
  unfoldable pub write_selector : RawOwnershipTransitionSelector → Written
  unfolding ◌then◌ write_bytes write_bool_field write_string_array_field write_json_string_field
  write_selector selector =
      write_bytes "{"
      then write_bool_field formats "all" selector.all
      then write_bytes ","
      then write_string_array_field formats "expressions" selector.expressions
      then write_bytes ","
      then write_json_string_field formats "kind" selector.kind
      then write_bytes ","
      then write_string_array_field formats "values" selector.values
      then write_bytes "}"

  unfoldable pub write_selectors_field :
      String → Option (List RawOwnershipTransitionSelector) → Written
  unfolding ◌then◌ write_field_name write_optional write_array write_selector
  write_selectors_field field_name selectors =
      write_field_name formats field_name then write_optional (write_array write_selector) selectors

  unfoldable pub write_resource_type : RawOwnershipTransitionResourceType → Written
  unfolding ◌then◌ write_bytes write_bool_field write_selectors_field
  write_resource_type resource_type =
      write_bytes "{"
      then write_bool_field formats "all" resource_type.all
      then write_bytes ","
      then write_selectors_field "allow" resource_type.allow
      then write_bytes ","
      then write_selectors_field "deny" resource_type.deny
      then write_bytes "}"

  -- An entry of the map.
  unfoldable pub write_resource_type_entry : Text × RawOwnershipTransitionResourceType → Written
  unfolding ◌then◌ write_bytes write_json_string write_resource_type
  write_resource_type_entry (name, resource_type) =
      write_json_string formats name then write_bytes ":" then write_resource_type resource_type

  unfoldable pub write_resource_type_map_field :
      String → List (Text × RawOwnershipTransitionResourceType) → Written
  unfolding ◌then◌ write_bytes write_field_name write_separated write_resource_type_entry
  write_resource_type_map_field field_name resource_types =
      write_field_name formats field_name
      then write_bytes "{"
      then write_separated write_resource_type_entry resource_types
      then write_bytes "}"

  unfoldable pub write_resource_scope_field : String → RawOwnershipTransitionResourceScope → Written
  unfolding ◌then◌ write_bytes write_field_name write_resource_type_map_field
  write_resource_scope_field field_name resource_scope =
      write_field_name formats field_name
      then write_bytes "{"
      then write_resource_type_map_field "types" resource_scope.types
      then write_bytes "}"

  unfoldable pub write_time_window : RawOwnershipTransitionTimeWindow → Written
  unfolding ◌then◌ write_bytes write_datetime_field
  write_time_window time_window =
      write_bytes "{"
      then write_datetime_field formats "not_after" time_window.not_after
      then write_bytes ","
      then write_datetime_field formats "not_before" time_window.not_before
      then write_bytes "}"

  unfoldable pub write_time_window_field :
      String → Option RawOwnershipTransitionTimeWindow → Written
  unfolding ◌then◌ write_field_name write_optional write_time_window
  write_time_window_field field_name time_window =
      write_field_name formats field_name then write_optional write_time_window time_window

  unfoldable pub write_global_constraints : RawOwnershipTransitionGlobalConstraints → Written
  unfolding ◌then◌ write_bytes write_time_window_field
  write_global_constraints constraints =
      write_bytes "{" then write_time_window_field "time" constraints.time then write_bytes "}"

  unfoldable pub write_global_constraints_field :
      String → Option RawOwnershipTransitionGlobalConstraints → Written
  unfolding ◌then◌ write_field_name write_optional write_global_constraints
  write_global_constraints_field field_name constraints =
      write_field_name formats field_name then write_optional write_global_constraints constraints

  unfoldable pub write_signature_field : String → RawOwnershipTransitionSignature → Written
  unfolding ◌then◌ write_bytes write_field_name write_json_string_field
  write_signature_field field_name signature =
      write_field_name formats field_name
      then write_bytes "{"
      then write_json_string_field formats "key_id" signature.key_id
      then write_bytes ","
      then write_json_string_field formats "signature" signature.signature
      then write_bytes "}"

  -- Without the successor's own signature.
  unfoldable pub write_acceptance_field : String → RawOwnershipTransitionAcceptance → Written
  unfolding ◌then◌ write_bytes write_field_name write_datetime_field write_json_string_field
  write_acceptance_field field_name acceptance =
      write_field_name formats field_name
      then write_bytes "{"
      then write_datetime_field formats "accepted_at" acceptance.accepted_at
      then write_bytes ","
      then write_json_string_field formats "key_id" acceptance.key_id
      then write_bytes "}"
