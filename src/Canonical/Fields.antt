-- ===== src/Canonical/Fields.antt =====
-- The writers of named fields.
use trustgrant.Prelude.{ℕ, String, Bool, Option, List}
use trustgrant.Prelude.Text.{Text, codes}
use trustgrant.Domain.Ownership.{Instant}
use trustgrant.Canonical.Writer.{
  Written, Formats, ◌then◌, write_bytes, write_bool, write_json_string, write_u64, write_datetime,
  write_optional, write_array,
}

module _ (formats : Formats) where
  unfoldable pub write_field_name : String → Written
  unfolding ◌then◌ write_json_string write_bytes
  write_field_name field_name = write_json_string formats (codes field_name) then write_bytes ":"

  unfoldable pub write_json_string_field : String → Text → Written
  unfolding ◌then◌ write_json_string write_field_name
  write_json_string_field field_name value =
      write_field_name field_name then write_json_string formats value

  unfoldable pub write_bool_field : String → Bool → Written
  unfolding ◌then◌ write_bool write_field_name
  write_bool_field field_name value = write_field_name field_name then write_bool value

  unfoldable pub write_optional_bool_field : String → Option Bool → Written
  unfolding ◌then◌ write_bool write_optional write_field_name
  write_optional_bool_field field_name value =
      write_field_name field_name then write_optional write_bool value

  unfoldable pub write_u64_field : String → ℕ → Written
  unfolding ◌then◌ write_u64 write_field_name
  write_u64_field field_name value = write_field_name field_name then write_u64 formats value

  unfoldable pub write_optional_u64_field : String → Option ℕ → Written
  unfolding ◌then◌ write_u64 write_optional write_field_name
  write_optional_u64_field field_name value =
      write_field_name field_name then write_optional (write_u64 formats) value

  unfoldable pub write_datetime_field : String → Instant → Written
  unfolding ◌then◌ write_datetime write_field_name
  write_datetime_field field_name value =
      write_field_name field_name then write_datetime formats value

  unfoldable pub write_optional_string_field : String → Option Text → Written
  unfolding ◌then◌ write_json_string write_optional write_field_name
  write_optional_string_field field_name value =
      write_field_name field_name then write_optional (write_json_string formats) value

  unfoldable pub write_string_array_field : String → Option (List Text) → Written
  unfolding ◌then◌ write_json_string write_optional write_array write_field_name
  write_string_array_field field_name values =
      write_field_name field_name
      then write_optional (write_array (write_json_string formats)) values
