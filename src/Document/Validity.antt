-- ===== src/Document/Validity.antt =====
-- validated.rs, `TryFrom<RawTrustGrantDocument>`: what holds of every validated document.
use trustgrant.Prelude.{
  ◌≤◌, false, not, String, Option, none, some, List, [], ◌∷◌, ◌≡◌, arith, Result, ok, >>=-eq-ok,
  guard, check_iff, ok_iff, guard_iff, ◌==◌, option_eq, nat_eq, leb, is_empty, length, any,
  none_iff, All, All-map, Distinct, unwrap_or_default, traverse_option,
}
use trustgrant.Prelude.Text.{Text}
use trustgrant.Errors.Kinds.{TrustGrantError, duplicate_audience_authority, invalid_time_window}
use trustgrant.Errors.Limits.{ensure_collection_limit, max_audience_entries}
use trustgrant.Domain.Lineage.{GrantLineage}
use trustgrant.Domain.Names.{ResourceTypeName, resource_type_name_eq}
use trustgrant.Domain.Authority.{AuthorityId, same_authority_iff, authority_id_eq, new_authority_id}
use trustgrant.Document.Model.{
  ValidatedAudienceEntry, ValidatedTypeConstraints, ValidatedResourceType, ValidatedTimeWindow,
  ValidatedTrustGrantDocument, new_validated_time_window,
}
use trustgrant.Document.Raw.{
  RawAudienceEntry, RawTypeConstraints, RawResourceType, RawGlobalConstraints,
}
use trustgrant.Document.Selectors.{
  validate_selectors, validate_scope, validate_scope_shape, validate_operation_scope,
}
use trustgrant.Document.SelectorShape.{AreSelectors, validate_selectors-AreSelectors}
use trustgrant.Document.Shape.{
  ScopeShape, IsScope, IsOperationScope, validate_scope_shape-ScopeShape, validate_scope-IsScope,
  validate_operation_scope-IsOperationScope,
}
use trustgrant.Document.Validate.{
  validate_global_constraints, validate_audience_from, validate_audience_entries,
  validate_type_constraints, validate_resource_type,
}

abbrev pub OptionHolds : {A : Type 0} → (A → Type 0) → Option A → Type 0
OptionHolds P none = Unit
OptionHolds P (some a) = P a

abbrev pub audience_ids : List ValidatedAudienceEntry → List AuthorityId
audience_ids [] = []
audience_ids (e ∷ es) = e.authority_id ∷ audience_ids es

-- No authority is named twice, and every scope is well formed.
pub record IsAudience (es : List ValidatedAudienceEntry) : Type 0 where
  pub distinct : Distinct (audience_ids es)
  pub scopes :
      All
        (λ (e : ValidatedAudienceEntry). IsScope e.scope × OptionHolds IsScope e.principal_scope)
        es

pub record IsResourceType (rt : ValidatedResourceType) : Type 0 where
  pub shape : ScopeShape rt.all rt.allow
  pub allow : AreSelectors rt.allow
  pub deny : AreSelectors rt.deny
  pub audience : IsAudience rt.constraints.audience_scope
  pub operations : OptionHolds IsOperationScope rt.operations

abbrev pub names_of : List (ResourceTypeName × ValidatedResourceType) → List ResourceTypeName
names_of [] = []
names_of ((name, rt) ∷ types) = name ∷ names_of types

abbrev pub TypesHold : List (ResourceTypeName × ValidatedResourceType) → Type 0
TypesHold [] = Unit
TypesHold ((name, rt) ∷ types) = IsResourceType rt × TypesHold types

pub record IsResourceScope (types : List (ResourceTypeName × ValidatedResourceType)) : Type 0 where
  pub distinct : Distinct (names_of types)
  pub each : TypesHold types

-- A revision is not zero, the first supersedes nothing, and no grant supersedes itself.
pub record IsLineage (l : GrantLineage) : Type 0 where
  pub positive : ¬ (l.revision.get ≡ 0)
  pub first : l.revision.get ≡ 1 → l.supersedes ≡ none
  pub other : ¬ (l.supersedes ≡ some l.trustgrant_id)

abbrev pub IsWindow : ValidatedTimeWindow → Type 0
IsWindow w = w.not_before ≤ w.not_after

pub record IsDocument (d : ValidatedTrustGrantDocument) : Type 0 where
  pub lineage : IsLineage d.lineage
  pub target_scope : IsScope d.target_scope
  pub audience : IsAudience d.default_audience_scope
  pub resource_scope : IsResourceScope d.resource_scope
  pub window : OptionHolds IsWindow d.global_time_window

traverse_option-holds :
    {A B : Type 0} (P : B → Type 0) (f : A → Result TrustGrantError B)
    → ((a : A) (b : B) → f a ≡ ok b → P b)
    → (o : Option A) (r : Option B) → traverse_option f o ≡ ok r
    → OptionHolds P r
unfolding traverse_option
traverse_option-holds P f each none r h =
    let e = (ok_iff {E = TrustGrantError} none r).0 h in rw e tt
traverse_option-holds P f each (some a) r h =
    let (b, one, h₁) = >>=-eq-ok (f a) _ h in
    let e = (ok_iff {E = TrustGrantError} (some b) r).0 h₁ in rw e (each a b one)

pub validate_global_constraints-IsWindow :
    (raw : Option RawGlobalConstraints) (w : Option ValidatedTimeWindow)
    → validate_global_constraints raw ≡ ok w
    → OptionHolds IsWindow w
unfolding validate_global_constraints new_validated_time_window
validate_global_constraints-IsWindow none w h =
    let e = (ok_iff {E = TrustGrantError} none w).0 h in rw e tt
validate_global_constraints-IsWindow (some raw) w h =
    traverse_option-holds IsWindow (λ t. new_validated_time_window t.not_before t.not_after)
      (λ t v k.
        let made : ValidatedTimeWindow = record {
          not_before = t.not_before;
          not_after = t.not_after;
        } in
        let (g, k₁) =
          (check_iff (guard (leb t.not_before t.not_after) invalid_time_window) (ok made) v).0 k in
        let e = (ok_iff {E = TrustGrantError} made v).0 k₁ in
        let test = (guard_iff (leb t.not_before t.not_after) invalid_time_window).0 g in
        rw e (ground arith))
      raw.time w h

module _ (to_lowercase : Text → Text) where
  -- What the loop over the audience entries has let pass.
  record PassedAudience (seen : List AuthorityId) (es : List ValidatedAudienceEntry) : Type 0 where
    apart : All (λ a. All (λ s. ¬ (s ≡ a)) seen) (audience_ids es)
    audience : IsAudience es

  audience-Passed :
      (name : String) (seen : List AuthorityId) (raws : List RawAudienceEntry)
      (es : List ValidatedAudienceEntry)
      → validate_audience_from to_lowercase name seen raws ≡ ok es
      → PassedAudience seen es
  unfolding validate_audience_from
  audience-Passed name seen [] es h =
      let e = (ok_iff {E = TrustGrantError} [] es).0 h in
      rw e (record { apart = tt; audience = record { distinct = tt; scopes = tt } })
  audience-Passed name seen (raw ∷ raws) es h =
      let (id, _, h₁) = >>=-eq-ok (new_authority_id to_lowercase raw.authority_id) _ h in
      let (g, h₂) =
        (check_iff (guard (not (any (λ a. a == id) seen)) duplicate_audience_authority) _ es).0
          h₁ in
      let (scope, s, h₃) = >>=-eq-ok (validate_scope name raw.scope) _ h₂ in
      let (principal, p, h₄) =
        >>=-eq-ok (traverse_option (validate_scope name) raw.principal_scope) _ h₃ in
      let (rest, later, h₅) =
        >>=-eq-ok (validate_audience_from to_lowercase name (id ∷ seen) raws) _ h₄ in
      let made : ValidatedAudienceEntry = record {
        authority_id = id;
        scope = scope;
        principal_scope = principal;
      } in
      let e = (ok_iff {E = TrustGrantError} (made ∷ rest) es).0 h₅ in
      let test = (guard_iff (not (any (λ a. a == id) seen)) duplicate_audience_authority).0 g in
      let fresh : any (λ a. a == id) seen ≡ false = ground arith in
      let q = audience-Passed name (id ∷ seen) raws rest later in
      rw e (record {
        apart = (
          (none_iff (λ a. a ≡ id) (λ a. a == id) (λ a. same_authority_iff a id) seen).0 fresh,
          All-map (λ a k. k.1) (audience_ids rest) q.apart,
        );
        audience = record {
          distinct = (All-map (λ a k. k.0) (audience_ids rest) q.apart, q.audience.distinct);
          scopes = (
            (
              validate_scope-IsScope name raw.scope scope s,
              traverse_option-holds IsScope (validate_scope name) (validate_scope-IsScope name)
                  raw.principal_scope principal p,
            ),
            q.audience.scopes,
          );
        };
      })

  pub validate_audience_entries-IsAudience :
      (name : String) (raw : Option (List RawAudienceEntry)) (es : List ValidatedAudienceEntry)
      → validate_audience_entries to_lowercase name raw ≡ ok es
      → IsAudience es
  unfolding validate_audience_entries
  validate_audience_entries-IsAudience name raw es h =
      let (_, _, h₁) =
        >>=-eq-ok
          (ensure_collection_limit name (length (unwrap_or_default raw)) max_audience_entries) _
          h in
      (audience-Passed name [] (unwrap_or_default raw) es h₁).audience

  constraints-IsAudience :
      (raw : RawTypeConstraints) (c : ValidatedTypeConstraints)
      → validate_type_constraints to_lowercase raw ≡ ok c
      → IsAudience c.audience_scope
  unfolding validate_type_constraints
  constraints-IsAudience raw c h =
      let (es, a, h₁) =
        >>=-eq-ok
          (validate_audience_entries to_lowercase "resource_scope.audience_scope"
            raw.audience_scope)
          _ h in
      let made : ValidatedTypeConstraints = record {
        minting = record {
          max_total = raw.minting.max_total;
          max_per_user = raw.minting.max_per_user;
        };
        audience_scope = es;
      } in
      let e = (ok_iff {E = TrustGrantError} made c).0 h₁ in
      rw e (
        validate_audience_entries-IsAudience "resource_scope.audience_scope" raw.audience_scope es
          a)

  pub validate_resource_type-IsResourceType :
      (raw : RawResourceType) (rt : ValidatedResourceType)
      → validate_resource_type to_lowercase raw ≡ ok rt
      → IsResourceType rt
  unfolding validate_resource_type
  validate_resource_type-IsResourceType raw rt h =
      let (allow, a, h₁) = >>=-eq-ok (validate_selectors raw.allow) _ h in
      let (deny, d, h₂) = >>=-eq-ok (validate_selectors raw.deny) _ h₁ in
      let (constraints, c, h₃) =
        >>=-eq-ok (validate_type_constraints to_lowercase raw.constraints) _ h₂ in
      let (operations, o, h₄) =
        >>=-eq-ok (traverse_option validate_operation_scope raw.operations) _ h₃ in
      let made : ValidatedResourceType = record {
        all = raw.all;
        allow = allow;
        deny = deny;
        capabilities = record {
          recognize = raw.capabilities.recognize;
          mint = raw.capabilities.mint;
        };
        constraints = constraints;
        operations = operations;
      } in
      let (shape, h₅) =
        (check_iff
            (validate_scope_shape "resource_scope.types" raw.all (is_empty allow)
              (not (is_empty allow)))
            (ok made) rt).0
          h₄ in
      let e = (ok_iff {E = TrustGrantError} made rt).0 h₅ in
      rw e (record {
        shape = validate_scope_shape-ScopeShape "resource_scope.types" raw.all allow shape;
        allow = validate_selectors-AreSelectors raw.allow allow a;
        deny = validate_selectors-AreSelectors raw.deny deny d;
        audience = constraints-IsAudience raw.constraints constraints c;
        operations =
            traverse_option-holds IsOperationScope validate_operation_scope
              validate_operation_scope-IsOperationScope raw.operations operations o;
      })
