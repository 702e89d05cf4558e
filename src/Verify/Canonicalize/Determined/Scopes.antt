-- ===== src/Verify/Canonicalize/Determined/Scopes.antt =====
-- canonicalize.rs: the bytes of selectors, scopes and audiences determine them.
use trustgrant.Prelude.{String, Option, List, ◌≡◌}
use trustgrant.Document.Raw.{RawSelector, RawScope, RawCapabilities, RawAudienceEntry}
use trustgrant.Canonical.Writer.{Formats, ◌then◌, write_bytes}
use trustgrant.Canonical.Fields.{write_field_name}
use trustgrant.Canonical.Unique.{
  Splits, Apart, Splits-Apart, map-Splits, after-Apart, ◌comma◌, object,
}
use trustgrant.Canonical.Values.{IsFaithful, Opens, write_optional-Splits}
use trustgrant.Canonical.Determined.{
  object-IsNotNull, opening, objects-Splits, named-Splits-Apart, write_json_string_field-Apart,
  write_bool_field-Apart, write_string_array_field-Apart,
}
use trustgrant.Verify.Canonicalize.Scopes.{
  write_selector, write_selectors_field, write_scope, write_scope_field, write_optional_scope_field,
  write_capabilities_field, write_audience_entry, write_audience_entries,
  write_audience_scope_field,
}

module _ (formats : Formats) (f : IsFaithful formats) where
  write_selector-Splits :
      (a b : RawSelector) → Splits (write_selector formats a) (write_selector formats b) (a ≡ b)
  unfolding write_selector
  write_selector-Splits a b =
      map-Splits
        (λ (((p, q), r), s). λ i. record { kind = r i; all = p i; values = s i; expressions = q i })
        (object (
          after-Apart (write_bytes "{") (write_bool_field-Apart formats f "all" a.all b.all)
          comma write_string_array_field-Apart formats f "expressions" a.expressions b.expressions
          comma write_json_string_field-Apart formats f "kind" a.kind b.kind
          comma write_string_array_field-Apart formats f "values" a.values b.values))

  write_selector-Opens : (a : RawSelector) → Opens b'{' (write_selector formats a)
  unfolding write_selector
  write_selector-Opens a = search opening depth 14

  pub write_selectors_field-Apart :
      (name : String) (a b : Option (List RawSelector))
      → Apart (write_selectors_field formats name a) (write_selectors_field formats name b) (a ≡ b)
  unfolding write_selectors_field
  write_selectors_field-Apart name a b =
      named-Splits-Apart formats f name
        (objects-Splits (write_selector formats) write_selector-Opens write_selector-Splits a b)

  pub write_scope-Splits :
      (a b : RawScope) → Splits (write_scope formats a) (write_scope formats b) (a ≡ b)
  unfolding write_scope
  write_scope-Splits a b =
      map-Splits (λ ((p, q), r). λ i. record { all = p i; allow = q i; deny = r i })
        (object (
          after-Apart (write_bytes "{") (write_bool_field-Apart formats f "all" a.all b.all)
          comma write_selectors_field-Apart "allow" a.allow b.allow
          comma write_selectors_field-Apart "deny" a.deny b.deny))

  write_scope-Opens : (a : RawScope) → Opens b'{' (write_scope formats a)
  unfolding write_scope
  write_scope-Opens a = search opening depth 14

  pub write_scope_field-Apart :
      (name : String) (a b : RawScope)
      → Apart (write_scope_field formats name a) (write_scope_field formats name b) (a ≡ b)
  unfolding write_scope_field
  write_scope_field-Apart name a b = named-Splits-Apart formats f name (write_scope-Splits a b)

  write_optional_scope_field-Apart :
      (name : String) (a b : Option RawScope)
      → Apart
          (write_optional_scope_field formats name a)
          (write_optional_scope_field formats name b)
          (a ≡ b)
  unfolding write_optional_scope_field
  write_optional_scope_field-Apart name a b = named-Splits-Apart formats f name (
      write_optional-Splits (write_scope formats) (λ s. object-IsNotNull (write_scope-Opens s))
        write_scope-Splits a b)

  pub write_capabilities_field-Apart :
      (name : String) (a b : RawCapabilities)
      → Apart
          (write_capabilities_field formats name a)
          (write_capabilities_field formats name b)
          (a ≡ b)
  unfolding write_capabilities_field
  write_capabilities_field-Apart name a b = Splits-Apart (
      map-Splits (λ (p, q). λ i. record { recognize = q i; mint = p i })
        (object (
          after-Apart (write_field_name formats name then write_bytes "{")
            (write_bool_field-Apart formats f "mint" a.mint b.mint)
          comma write_bool_field-Apart formats f "recognize" a.recognize b.recognize)))

  write_audience_entry-Splits :
      (a b : RawAudienceEntry)
      → Splits (write_audience_entry formats a) (write_audience_entry formats b) (a ≡ b)
  unfolding write_audience_entry
  write_audience_entry-Splits a b =
      map-Splits
        (λ ((p, q), r). λ i. record { authority_id = p i; scope = r i; principal_scope = q i })
        (object (
          after-Apart (write_bytes "{")
            (write_json_string_field-Apart formats f "authority_id" a.authority_id b.authority_id)
          comma write_optional_scope_field-Apart "principal_scope" a.principal_scope
              b.principal_scope
          comma write_scope_field-Apart "scope" a.scope b.scope))

  write_audience_entry-Opens : (a : RawAudienceEntry) → Opens b'{' (write_audience_entry formats a)
  unfolding write_audience_entry
  write_audience_entry-Opens a = search opening depth 14

  pub write_audience_scope_field-Apart :
      (name : String) (a b : Option (List RawAudienceEntry))
      → Apart
          (write_audience_scope_field formats name a)
          (write_audience_scope_field formats name b)
          (a ≡ b)
  unfolding write_audience_scope_field write_audience_entries
  write_audience_scope_field-Apart name a b = named-Splits-Apart formats f name (
      objects-Splits (write_audience_entry formats) write_audience_entry-Opens
        write_audience_entry-Splits a b)
