-- ===== src/Verify/Canonicalize/Determined/Parts.antt =====
-- canonicalize.rs: the bytes of a document's constraints, revocation and principal determine them.
use trustgrant.Prelude.{String, Option, ◌≡◌, refl, ap, arith, length}
use trustgrant.Prelude.Text.{codes}
use trustgrant.Document.Model.{PostRevocationEffect, block_all, block_minting_only}
use trustgrant.Document.Raw.{
  RawSupersessionPolicy, coexist, supersede_previous, RawTimeWindow, RawGlobalConstraints,
  RawRevocation, RawPrincipal,
}
use trustgrant.Canonical.Writer.{Formats, write_bytes}
use trustgrant.Canonical.Unique.{Splits, Apart, map-Splits, after-Apart, ◌comma◌, object}
use trustgrant.Canonical.Values.{IsFaithful, Opens, write_optional-Splits, write_json_string-Splits}
use trustgrant.Canonical.Determined.{
  object-IsNotNull, opening, named-Splits-Apart, write_bool_field-Apart,
  write_json_string_field-Apart, write_datetime_field-Apart,
}
use trustgrant.Verify.Canonicalize.Document.{
  policy_name, effect_name, write_time_window, write_time_window_field, write_global_constraints,
  write_global_constraints_field, write_revocation, write_revocation_field, write_principal,
  write_principal_field, write_supersession_policy_field,
}

policy_name-injective :
    (a b : RawSupersessionPolicy) → codes (policy_name a) ≡ codes (policy_name b) → a ≡ b
policy_name-injective coexist coexist h = refl
policy_name-injective supersede_previous supersede_previous h = refl
policy_name-injective coexist supersede_previous h =
    let no : ⊥ = omega (arith, ap length h) in elim no [ ]
policy_name-injective supersede_previous coexist h =
    let no : ⊥ = omega (arith, ap length h) in elim no [ ]

effect_name-injective :
    (a b : PostRevocationEffect) → codes (effect_name a) ≡ codes (effect_name b) → a ≡ b
effect_name-injective block_all block_all h = refl
effect_name-injective block_minting_only block_minting_only h = refl
effect_name-injective block_all block_minting_only h =
    let no : ⊥ = omega (arith, ap length h) in elim no [ ]
effect_name-injective block_minting_only block_all h =
    let no : ⊥ = omega (arith, ap length h) in elim no [ ]

module _ (formats : Formats) (f : IsFaithful formats) where
  write_time_window-Splits :
      (a b : RawTimeWindow)
      → Splits (write_time_window formats a) (write_time_window formats b) (a ≡ b)
  unfolding write_time_window
  write_time_window-Splits a b =
      map-Splits (λ (p, q). λ i. record { not_before = q i; not_after = p i })
        (object (
          after-Apart (write_bytes "{")
            (write_datetime_field-Apart formats f "not_after" a.not_after b.not_after)
          comma write_datetime_field-Apart formats f "not_before" a.not_before b.not_before))

  write_time_window-Opens : (a : RawTimeWindow) → Opens b'{' (write_time_window formats a)
  unfolding write_time_window
  write_time_window-Opens a = search opening depth 14

  pub write_time_window_field-Apart :
      (name : String) (a b : Option RawTimeWindow)
      → Apart
          (write_time_window_field formats name a)
          (write_time_window_field formats name b)
          (a ≡ b)
  unfolding write_time_window_field
  write_time_window_field-Apart name a b = named-Splits-Apart formats f name (
      write_optional-Splits (write_time_window formats)
        (λ s. object-IsNotNull (write_time_window-Opens s)) write_time_window-Splits a b)

  write_global_constraints-Splits :
      (a b : RawGlobalConstraints)
      → Splits (write_global_constraints formats a) (write_global_constraints formats b) (a ≡ b)
  unfolding write_global_constraints
  write_global_constraints-Splits a b =
      map-Splits (λ p. λ i. record { time = p i })
        (object
          (after-Apart (write_bytes "{") (write_time_window_field-Apart "time" a.time b.time)))

  write_global_constraints-Opens :
      (a : RawGlobalConstraints) → Opens b'{' (write_global_constraints formats a)
  unfolding write_global_constraints
  write_global_constraints-Opens a = search opening depth 14

  pub write_global_constraints_field-Apart :
      (name : String) (a b : Option RawGlobalConstraints)
      → Apart
          (write_global_constraints_field formats name a)
          (write_global_constraints_field formats name b)
          (a ≡ b)
  unfolding write_global_constraints_field
  write_global_constraints_field-Apart name a b = named-Splits-Apart formats f name (
      write_optional-Splits (write_global_constraints formats)
        (λ s. object-IsNotNull (write_global_constraints-Opens s)) write_global_constraints-Splits a
        b)

  write_revocation-Splits :
      (a b : RawRevocation)
      → Splits (write_revocation formats a) (write_revocation formats b) (a ≡ b)
  unfolding write_revocation
  write_revocation-Splits a b =
      map-Splits
        (λ ((p, q), r). λ i. record {
          revocable = q i;
          revocation_endpoint = r i;
          post_revocation_effect =
              effect_name-injective a.post_revocation_effect b.post_revocation_effect p i;
        })
        (object (
          after-Apart (write_bytes "{") (
            write_json_string_field-Apart formats f "post_revocation_effect"
              (codes (effect_name a.post_revocation_effect))
              (codes (effect_name b.post_revocation_effect)))
          comma write_bool_field-Apart formats f "revocable" a.revocable b.revocable
          comma write_json_string_field-Apart formats f "revocation_endpoint" a.revocation_endpoint
              b.revocation_endpoint))

  write_revocation-Opens : (a : RawRevocation) → Opens b'{' (write_revocation formats a)
  unfolding write_revocation
  write_revocation-Opens a = search opening depth 14

  pub write_revocation_field-Apart :
      (name : String) (a b : Option RawRevocation)
      → Apart
          (write_revocation_field formats name a)
          (write_revocation_field formats name b)
          (a ≡ b)
  unfolding write_revocation_field
  write_revocation_field-Apart name a b = named-Splits-Apart formats f name (
      write_optional-Splits (write_revocation formats)
        (λ s. object-IsNotNull (write_revocation-Opens s)) write_revocation-Splits a b)

  write_principal-Splits :
      (a b : RawPrincipal) → Splits (write_principal formats a) (write_principal formats b) (a ≡ b)
  unfolding write_principal
  write_principal-Splits a b =
      map-Splits (λ (p, q). λ i. record { kind = q i; id = p i })
        (object (
          after-Apart (write_bytes "{") (write_json_string_field-Apart formats f "id" a.id b.id)
          comma write_json_string_field-Apart formats f "kind" a.kind b.kind))

  write_principal-Opens : (a : RawPrincipal) → Opens b'{' (write_principal formats a)
  unfolding write_principal
  write_principal-Opens a = search opening depth 14

  pub write_principal_field-Apart :
      (name : String) (a b : Option RawPrincipal)
      → Apart (write_principal_field formats name a) (write_principal_field formats name b) (a ≡ b)
  unfolding write_principal_field
  write_principal_field-Apart name a b = named-Splits-Apart formats f name (
      write_optional-Splits (write_principal formats)
        (λ s. object-IsNotNull (write_principal-Opens s)) write_principal-Splits a b)

  pub write_supersession_policy_field-Apart :
      (name : String) (a b : RawSupersessionPolicy)
      → Apart
          (write_supersession_policy_field formats name a)
          (write_supersession_policy_field formats name b)
          (a ≡ b)
  unfolding write_supersession_policy_field
  write_supersession_policy_field-Apart name a b = named-Splits-Apart formats f name (
      map-Splits (policy_name-injective a b)
        (write_json_string-Splits formats f (codes (policy_name a)) (codes (policy_name b))))
