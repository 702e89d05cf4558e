-- ===== src/Ownership/Canonicalize/Determined/Parts.antt =====
-- canonicalize.rs: the bytes of a transition determine what its parties sign.
use trustgrant.Prelude.{String, Option, List, [], ◌≡◌, refl, arith}
use trustgrant.Prelude.Text.{Text}
use trustgrant.Document.Transition.Raw.{
  RawOwnershipTransitionSelector, RawOwnershipTransitionResourceType,
  RawOwnershipTransitionResourceScope, RawOwnershipTransitionTimeWindow,
  RawOwnershipTransitionGlobalConstraints, RawOwnershipTransitionSignature,
  RawOwnershipTransitionAcceptance,
}
use trustgrant.Canonical.Writer.{Formats, ◌then◌, write_bytes, write_json_string}
use trustgrant.Canonical.Fields.{write_field_name}
use trustgrant.Canonical.Unique.{
  Splits, Apart, Splits-Apart, map-Splits, then-Splits, after-Splits, after-Apart, ◌comma◌, object,
}
use trustgrant.Canonical.Values.{
  IsFaithful, Opens, Opens-then, write_optional-Splits, write_json_string-Splits,
  write_json_string-Opens,
}
use trustgrant.Canonical.Lists.{then_assoc, enclosed-Splits}
use trustgrant.Canonical.Determined.{
  object-IsNotNull, objects-Splits, opening, named-Splits-Apart, write_json_string_field-Apart,
  write_bool_field-Apart, write_string_array_field-Apart, write_datetime_field-Apart,
}
use trustgrant.Ownership.Canonicalize.Parts.{
  write_selector, write_selectors_field, write_resource_type, write_resource_type_entry,
  write_resource_type_map_field, write_resource_scope_field, write_time_window,
  write_time_window_field, write_global_constraints, write_global_constraints_field,
  write_signature_field, write_acceptance_field,
}

-- An acceptance without its signature.
abbrev pub unsigned : RawOwnershipTransitionAcceptance → RawOwnershipTransitionAcceptance
unsigned a = record { accepted_at = a.accepted_at; key_id = a.key_id; signature = [] }

module _ (formats : Formats) (f : IsFaithful formats) where
  write_selector-Splits :
      (a b : RawOwnershipTransitionSelector)
      → Splits (write_selector formats a) (write_selector formats b) (a ≡ b)
  unfolding write_selector
  write_selector-Splits a b =
      map-Splits
        (λ (((p, q), r), s). λ i. record { kind = r i; all = p i; values = s i; expressions = q i })
        (object (
          after-Apart (write_bytes "{") (write_bool_field-Apart formats f "all" a.all b.all)
          comma write_string_array_field-Apart formats f "expressions" a.expressions b.expressions
          comma write_json_string_field-Apart formats f "kind" a.kind b.kind
          comma write_string_array_field-Apart formats f "values" a.values b.values))

  write_selector-Opens :
      (a : RawOwnershipTransitionSelector) → Opens b'{' (write_selector formats a)
  unfolding write_selector
  write_selector-Opens a = search opening depth 14

  write_selectors_field-Apart :
      (name : String) (a b : Option (List RawOwnershipTransitionSelector))
      → Apart (write_selectors_field formats name a) (write_selectors_field formats name b) (a ≡ b)
  unfolding write_selectors_field
  write_selectors_field-Apart name a b =
      named-Splits-Apart formats f name
        (objects-Splits (write_selector formats) write_selector-Opens write_selector-Splits a b)

  write_resource_type-Splits :
      (a b : RawOwnershipTransitionResourceType)
      → Splits (write_resource_type formats a) (write_resource_type formats b) (a ≡ b)
  unfolding write_resource_type
  write_resource_type-Splits a b =
      map-Splits (λ ((p, q), r). λ i. record { all = p i; allow = q i; deny = r i })
        (object (
          after-Apart (write_bytes "{") (write_bool_field-Apart formats f "all" a.all b.all)
          comma write_selectors_field-Apart "allow" a.allow b.allow
          comma write_selectors_field-Apart "deny" a.deny b.deny))

  write_resource_type_entry-Splits :
      (a b : Text × RawOwnershipTransitionResourceType)
      → Splits (write_resource_type_entry formats a) (write_resource_type_entry formats b) (a ≡ b)
  unfolding write_resource_type_entry
  write_resource_type_entry-Splits (name, a) (other, b) =
      rw
        (
          then_assoc (write_json_string formats name) (write_bytes ":")
              (write_resource_type formats a),
          then_assoc (write_json_string formats other) (write_bytes ":")
              (write_resource_type formats b),
        )
        (map-Splits (λ (p, q). λ i. (p i, q i))
          (then-Splits (write_json_string-Splits formats f name other)
            (after-Splits (write_bytes ":") (write_resource_type-Splits a b))))

  write_resource_type_entry-Opens :
      (a : Text × RawOwnershipTransitionResourceType)
      → Opens b'"' (write_resource_type_entry formats a)
  unfolding write_resource_type_entry
  write_resource_type_entry-Opens (name, a) =
      Opens-then (write_resource_type formats a)
        (Opens-then (write_bytes ":") (write_json_string-Opens formats f name))

  write_resource_type_map_field-Apart :
      (name : String) (a b : List (Text × RawOwnershipTransitionResourceType))
      → Apart
          (write_resource_type_map_field formats name a)
          (write_resource_type_map_field formats name b)
          (a ≡ b)
  unfolding write_resource_type_map_field
  write_resource_type_map_field-Apart name a b = Splits-Apart (
      enclosed-Splits (write_resource_type_entry formats) b'"' write_resource_type_entry-Opens
        write_resource_type_entry-Splits "}" b'}' [] refl (λ h. omega (arith, h))
        (λ h. omega (arith, h)) (write_field_name formats name then write_bytes "{") a b)

  pub write_resource_scope_field-Apart :
      (name : String) (a b : RawOwnershipTransitionResourceScope)
      → Apart
          (write_resource_scope_field formats name a)
          (write_resource_scope_field formats name b)
          (a ≡ b)
  unfolding write_resource_scope_field
  write_resource_scope_field-Apart name a b = Splits-Apart (
      map-Splits (λ p. λ i. record { types = p i })
        (object (
          after-Apart (write_field_name formats name then write_bytes "{")
            (write_resource_type_map_field-Apart "types" a.types b.types))))

  write_time_window-Splits :
      (a b : RawOwnershipTransitionTimeWindow)
      → Splits (write_time_window formats a) (write_time_window formats b) (a ≡ b)
  unfolding write_time_window
  write_time_window-Splits a b =
      map-Splits (λ (p, q). λ i. record { not_before = q i; not_after = p i })
        (object (
          after-Apart (write_bytes "{")
            (write_datetime_field-Apart formats f "not_after" a.not_after b.not_after)
          comma write_datetime_field-Apart formats f "not_before" a.not_before b.not_before))

  write_time_window-Opens :
      (a : RawOwnershipTransitionTimeWindow) → Opens b'{' (write_time_window formats a)
  unfolding write_time_window
  write_time_window-Opens a = search opening depth 14

  write_time_window_field-Apart :
      (name : String) (a b : Option RawOwnershipTransitionTimeWindow)
      → Apart
          (write_time_window_field formats name a)
          (write_time_window_field formats name b)
          (a ≡ b)
  unfolding write_time_window_field
  write_time_window_field-Apart name a b = named-Splits-Apart formats f name (
      write_optional-Splits (write_time_window formats)
        (λ s. object-IsNotNull (write_time_window-Opens s)) write_time_window-Splits a b)

  write_global_constraints-Splits :
      (a b : RawOwnershipTransitionGlobalConstraints)
      → Splits (write_global_constraints formats a) (write_global_constraints formats b) (a ≡ b)
  unfolding write_global_constraints
  write_global_constraints-Splits a b =
      map-Splits (λ p. λ i. record { time = p i })
        (object
          (after-Apart (write_bytes "{") (write_time_window_field-Apart "time" a.time b.time)))

  write_global_constraints-Opens :
      (a : RawOwnershipTransitionGlobalConstraints)
      → Opens b'{' (write_global_constraints formats a)
  unfolding write_global_constraints
  write_global_constraints-Opens a = search opening depth 14

  pub write_global_constraints_field-Apart :
      (name : String) (a b : Option RawOwnershipTransitionGlobalConstraints)
      → Apart
          (write_global_constraints_field formats name a)
          (write_global_constraints_field formats name b)
          (a ≡ b)
  unfolding write_global_constraints_field
  write_global_constraints_field-Apart name a b = named-Splits-Apart formats f name (
      write_optional-Splits (write_global_constraints formats)
        (λ s. object-IsNotNull (write_global_constraints-Opens s)) write_global_constraints-Splits a
        b)

  pub write_signature_field-Apart :
      (name : String) (a b : RawOwnershipTransitionSignature)
      → Apart (write_signature_field formats name a) (write_signature_field formats name b) (a ≡ b)
  unfolding write_signature_field
  write_signature_field-Apart name a b = Splits-Apart (
      map-Splits (λ (p, q). λ i. record { key_id = p i; signature = q i })
        (object (
          after-Apart (write_field_name formats name then write_bytes "{")
            (write_json_string_field-Apart formats f "key_id" a.key_id b.key_id)
          comma write_json_string_field-Apart formats f "signature" a.signature b.signature)))

  pub write_acceptance_field-Apart :
      (name : String) (a b : RawOwnershipTransitionAcceptance)
      → Apart
          (write_acceptance_field formats name a)
          (write_acceptance_field formats name b)
          (unsigned a ≡ unsigned b)
  unfolding write_acceptance_field
  write_acceptance_field-Apart name a b = Splits-Apart (
      map-Splits (λ (p, q). λ i. record { accepted_at = p i; key_id = q i; signature = [] })
        (object (
          after-Apart (write_field_name formats name then write_bytes "{")
            (write_datetime_field-Apart formats f "accepted_at" a.accepted_at b.accepted_at)
          comma write_json_string_field-Apart formats f "key_id" a.key_id b.key_id)))
