-- ===== src/Verify/Canonicalize/Determined/Types.antt =====
-- canonicalize.rs: the bytes of a resource type determine it.
use trustgrant.Prelude.{String, Option, List, [], ◌≡◌, refl, arith}
use trustgrant.Prelude.Text.{Text}
use trustgrant.Document.Raw.{
  RawTypeCapabilities, RawMintingConstraints, RawTypeConstraints, RawOperationScope,
  RawResourceType, RawResourceScope,
}
use trustgrant.Canonical.Writer.{Formats, ◌then◌, write_bytes, write_json_string}
use trustgrant.Canonical.Fields.{write_field_name}
use trustgrant.Canonical.Unique.{
  Splits, Apart, Splits-Apart, map-Splits, then-Splits, after-Splits, after-Apart, ◌comma◌, object,
}
use trustgrant.Canonical.Values.{
  IsFaithful, Opens, Opens-then, write_optional-Splits, write_json_string-Splits,
  write_json_string-Opens,
}
use trustgrant.Canonical.Lists.{then_assoc, enclosed-Splits}
use trustgrant.Canonical.Determined.{
  object-IsNotNull, opening, named-Splits-Apart, write_bool_field-Apart,
  write_string_array_field-Apart, write_optional_bool_field-Apart, write_optional_u64_field-Apart,
}
use trustgrant.Verify.Canonicalize.Types.{
  write_type_capabilities_field, write_minting_constraints_field, write_type_constraints_field,
  write_operation_scope, write_operation_scope_field, write_resource_type,
  write_resource_type_entry, write_resource_type_map_field, write_resource_scope_field,
}
use trustgrant.Verify.Canonicalize.Determined.Scopes.{
  write_selectors_field-Apart, write_audience_scope_field-Apart,
}

module _ (formats : Formats) (f : IsFaithful formats) where
  write_type_capabilities_field-Apart :
      (name : String) (a b : RawTypeCapabilities)
      → Apart
          (write_type_capabilities_field formats name a)
          (write_type_capabilities_field formats name b)
          (a ≡ b)
  unfolding write_type_capabilities_field
  write_type_capabilities_field-Apart name a b = Splits-Apart (
      map-Splits (λ (p, q). λ i. record { recognize = q i; mint = p i })
        (object (
          after-Apart (write_field_name formats name then write_bytes "{")
            (write_optional_bool_field-Apart formats f "mint" a.mint b.mint)
          comma write_optional_bool_field-Apart formats f "recognize" a.recognize b.recognize)))

  write_minting_constraints_field-Apart :
      (name : String) (a b : RawMintingConstraints)
      → Apart
          (write_minting_constraints_field formats name a)
          (write_minting_constraints_field formats name b)
          (a ≡ b)
  unfolding write_minting_constraints_field
  write_minting_constraints_field-Apart name a b = Splits-Apart (
      map-Splits (λ (p, q). λ i. record { max_total = q i; max_per_user = p i })
        (object (
          after-Apart (write_field_name formats name then write_bytes "{")
            (write_optional_u64_field-Apart formats f "max_per_user" a.max_per_user b.max_per_user)
          comma write_optional_u64_field-Apart formats f "max_total" a.max_total b.max_total)))

  write_type_constraints_field-Apart :
      (name : String) (a b : RawTypeConstraints)
      → Apart
          (write_type_constraints_field formats name a)
          (write_type_constraints_field formats name b)
          (a ≡ b)
  unfolding write_type_constraints_field
  write_type_constraints_field-Apart name a b = Splits-Apart (
      map-Splits (λ (p, q). λ i. record { minting = q i; audience_scope = p i })
        (object (
          after-Apart (write_field_name formats name then write_bytes "{") (
            write_audience_scope_field-Apart formats f "audience_scope" a.audience_scope
              b.audience_scope)
          comma write_minting_constraints_field-Apart "minting" a.minting b.minting)))

  write_operation_scope-Splits :
      (a b : RawOperationScope)
      → Splits (write_operation_scope formats a) (write_operation_scope formats b) (a ≡ b)
  unfolding write_operation_scope
  write_operation_scope-Splits a b =
      map-Splits (λ (p, q). λ i. record { allow = p i; deny = q i })
        (object (
          after-Apart (write_bytes "{")
            (write_string_array_field-Apart formats f "allow" a.allow b.allow)
          comma write_string_array_field-Apart formats f "deny" a.deny b.deny))

  write_operation_scope-Opens :
      (a : RawOperationScope) → Opens b'{' (write_operation_scope formats a)
  unfolding write_operation_scope
  write_operation_scope-Opens a = search opening depth 14

  write_operation_scope_field-Apart :
      (name : String) (a b : Option RawOperationScope)
      → Apart
          (write_operation_scope_field formats name a)
          (write_operation_scope_field formats name b)
          (a ≡ b)
  unfolding write_operation_scope_field
  write_operation_scope_field-Apart name a b = named-Splits-Apart formats f name (
      write_optional-Splits (write_operation_scope formats)
        (λ s. object-IsNotNull (write_operation_scope-Opens s)) write_operation_scope-Splits a b)

  write_resource_type-Splits :
      (a b : RawResourceType)
      → Splits (write_resource_type formats a) (write_resource_type formats b) (a ≡ b)
  unfolding write_resource_type
  write_resource_type-Splits a b =
      map-Splits
        (λ (((((p, q), r), s), t), u). λ i. record {
          all = p i;
          allow = q i;
          deny = t i;
          capabilities = r i;
          constraints = s i;
          operations = u i;
        })
        (object (
          after-Apart (write_bytes "{") (write_bool_field-Apart formats f "all" a.all b.all)
          comma write_selectors_field-Apart formats f "allow" a.allow b.allow
          comma write_type_capabilities_field-Apart "capabilities" a.capabilities b.capabilities
          comma write_type_constraints_field-Apart "constraints" a.constraints b.constraints
          comma write_selectors_field-Apart formats f "deny" a.deny b.deny
          comma write_operation_scope_field-Apart "operations" a.operations b.operations))

  write_resource_type_entry-Splits :
      (a b : Text × RawResourceType)
      → Splits (write_resource_type_entry formats a) (write_resource_type_entry formats b) (a ≡ b)
  unfolding write_resource_type_entry
  write_resource_type_entry-Splits (name, a) (other, b) =
      rw
        (
          then_assoc (write_json_string formats name) (write_bytes ":")
              (write_resource_type formats a),
          then_assoc (write_json_string formats other) (write_bytes ":")
              (write_resource_type formats b),
        )
        (map-Splits (λ (p, q). λ i. (p i, q i))
          (then-Splits (write_json_string-Splits formats f name other)
            (after-Splits (write_bytes ":") (write_resource_type-Splits a b))))

  write_resource_type_entry-Opens :
      (a : Text × RawResourceType) → Opens b'"' (write_resource_type_entry formats a)
  unfolding write_resource_type_entry
  write_resource_type_entry-Opens (name, a) =
      Opens-then (write_resource_type formats a)
        (Opens-then (write_bytes ":") (write_json_string-Opens formats f name))

  write_resource_type_map_field-Apart :
      (name : String) (a b : List (Text × RawResourceType))
      → Apart
          (write_resource_type_map_field formats name a)
          (write_resource_type_map_field formats name b)
          (a ≡ b)
  unfolding write_resource_type_map_field
  write_resource_type_map_field-Apart name a b = Splits-Apart (
      enclosed-Splits (write_resource_type_entry formats) b'"' write_resource_type_entry-Opens
        write_resource_type_entry-Splits "}" b'}' [] refl (λ h. omega (arith, h))
        (λ h. omega (arith, h)) (write_field_name formats name then write_bytes "{") a b)

  pub write_resource_scope_field-Apart :
      (name : String) (a b : RawResourceScope)
      → Apart
          (write_resource_scope_field formats name a)
          (write_resource_scope_field formats name b)
          (a ≡ b)
  unfolding write_resource_scope_field
  write_resource_scope_field-Apart name a b = Splits-Apart (
      map-Splits (λ p. λ i. record { types = p i })
        (object (
          after-Apart (write_field_name formats name then write_bytes "{")
            (write_resource_type_map_field-Apart "types" a.types b.types))))
