-- ===== src/Verify/Canonicalize/Scopes.antt =====
-- canonicalize.rs: selectors, scopes and audiences.
use trustgrant.Prelude.{String, Option, List}
use trustgrant.Document.Raw.{RawSelector, RawScope, RawCapabilities, RawAudienceEntry}
use trustgrant.Canonical.Writer.{Written, Formats, ◌then◌, write_bytes, write_optional, write_array}
use trustgrant.Canonical.Fields.{
  write_field_name, write_json_string_field, write_bool_field, write_string_array_field,
}

module _ (formats : Formats) where
  unfoldable pub write_selector : RawSelector → Written
  unfolding ◌then◌ write_bytes write_bool_field write_string_array_field write_json_string_field
  write_selector selector =
      write_bytes "{"
      then write_bool_field formats "all" selector.all
      then write_bytes ","
      then write_string_array_field formats "expressions" selector.expressions
      then write_bytes ","
      then write_json_string_field formats "kind" selector.kind
      then write_bytes ","
      then write_string_array_field formats "values" selector.values
      then write_bytes "}"

  unfoldable pub write_selectors_field : String → Option (List RawSelector) → Written
  unfolding ◌then◌ write_field_name write_optional write_array write_selector
  write_selectors_field field_name selectors =
      write_field_name formats field_name then write_optional (write_array write_selector) selectors

  unfoldable pub write_scope : RawScope → Written
  unfolding ◌then◌ write_bytes write_bool_field write_selectors_field
  write_scope scope =
      write_bytes "{"
      then write_bool_field formats "all" scope.all
      then write_bytes ","
      then write_selectors_field "allow" scope.allow
      then write_bytes ","
      then write_selectors_field "deny" scope.deny
      then write_bytes "}"

  unfoldable pub write_scope_field : String → RawScope → Written
  unfolding ◌then◌ write_field_name write_scope
  write_scope_field field_name scope = write_field_name formats field_name then write_scope scope

  unfoldable pub write_optional_scope_field : String → Option RawScope → Written
  unfolding ◌then◌ write_field_name write_optional write_scope
  write_optional_scope_field field_name scope =
      write_field_name formats field_name then write_optional write_scope scope

  unfoldable pub write_capabilities_field : String → RawCapabilities → Written
  unfolding ◌then◌ write_bytes write_field_name write_bool_field
  write_capabilities_field field_name capabilities =
      write_field_name formats field_name
      then write_bytes "{"
      then write_bool_field formats "mint" capabilities.mint
      then write_bytes ","
      then write_bool_field formats "recognize" capabilities.recognize
      then write_bytes "}"

  unfoldable pub write_audience_entry : RawAudienceEntry → Written
  unfolding ◌then◌ write_bytes write_json_string_field write_optional_scope_field write_scope_field
  write_audience_entry entry =
      write_bytes "{"
      then write_json_string_field formats "authority_id" entry.authority_id
      then write_bytes ","
      then write_optional_scope_field "principal_scope" entry.principal_scope
      then write_bytes ","
      then write_scope_field "scope" entry.scope
      then write_bytes "}"

  unfoldable pub write_audience_entries : Option (List RawAudienceEntry) → Written
  unfolding write_optional write_array write_audience_entry
  write_audience_entries entries = write_optional (write_array write_audience_entry) entries

  unfoldable pub write_audience_scope_field : String → Option (List RawAudienceEntry) → Written
  unfolding ◌then◌ write_field_name write_audience_entries
  write_audience_scope_field field_name entries =
      write_field_name formats field_name then write_audience_entries entries
