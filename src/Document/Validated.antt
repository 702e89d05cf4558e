-- ===== src/Document/Validated.antt =====
-- validated.rs, `TryFrom<RawTrustGrantDocument>`: a validated document is well formed.
use trustgrant.Prelude.{
  ℕ, Bool, true, false, ◌&&◌, not, Option, none, some, List, [], ◌∷◌, ◌≡◌, refl, inl, inr, arith,
  Bool-cases, ok, >>=-eq-ok, guard, check_iff, ok_iff, guard_iff, ◌==◌, option_eq, nat_eq,
  eq_option_iff, eqb, eqb_iff, is_some, length, All, Distinct, traverse_option,
}
use trustgrant.Prelude.Text.{Text}
use trustgrant.Prelude.Assoc
use trustgrant.Errors.Kinds.{
  TrustGrantError, invalid_protocol_version, invalid_supersedes_for_first_revision,
  self_supersession,
}
use trustgrant.Errors.Limits.{ensure_collection_limit, max_resource_types}
use trustgrant.Domain.Ids.{Uuid, parse_prefixed_uuid}
use trustgrant.Domain.Lineage.{GrantLineage, GrantRevision, new_grant_revision}
use trustgrant.Domain.Names.{
  ResourceTypeName, resource_type_name_eq, new_resource_type_name, new_key_id,
}
use trustgrant.Domain.Authority.{authority_id_eq, new_authority_id}
use trustgrant.Document.Model.{ValidatedResourceType, ValidatedTrustGrantDocument}
use trustgrant.Document.Raw.{RawResourceType, RawTrustGrantDocument}
use trustgrant.Document.Selectors.{validate_scope, normalize_non_empty_string}
use trustgrant.Document.Shape.{validate_scope-IsScope}
use trustgrant.Document.Validate.{
  policy_of, validate_global_constraints, validate_audience_entries, validate_resource_type,
  collect_resource_types, validate_resource_scope, validate_lineage, try_from, validate_principal,
}
use trustgrant.Document.Validity.{
  IsResourceType, names_of, TypesHold, IsResourceScope, IsLineage, IsDocument,
  validate_global_constraints-IsWindow, validate_audience_entries-IsAudience,
  validate_resource_type-IsResourceType,
}

-- An insertion adds no name but its own.
insert-other :
    (name other : ResourceTypeName) (rt : ValidatedResourceType)
    (types : List (ResourceTypeName × ValidatedResourceType))
    → ¬ (other ≡ name)
    → All (λ n. ¬ (other ≡ n)) (names_of types)
    → All (λ n. ¬ (other ≡ n)) (names_of (Assoc.insert name rt types))
unfolding Assoc.insert
insert-other name other rt [] differs h = (differs, tt)
insert-other name other rt ((n, w) ∷ types) differs (here, later) = elim (Bool-cases (n == name)) [
  | inl e ↦ rw e (here, later)
  | inr e ↦ rw e (here, insert-other name other rt types differs later)
]

insert-Distinct :
    (name : ResourceTypeName) (rt : ValidatedResourceType)
    (types : List (ResourceTypeName × ValidatedResourceType))
    → Distinct (names_of types)
    → Distinct (names_of (Assoc.insert name rt types))
unfolding Assoc.insert
insert-Distinct name rt [] h = (tt, tt)
insert-Distinct name rt ((n, w) ∷ types) (here, later) = elim (Bool-cases (n == name)) [
  | inl e ↦ rw e (here, later)
  | inr e ↦
      let differs : ¬ (n ≡ name) = λ same. cc ((resource_type_name_eq.beq_iff n name).1 same) in
      rw e (insert-other name n rt types differs here, insert-Distinct name rt types later)
]

insert-TypesHold :
    (name : ResourceTypeName) (rt : ValidatedResourceType)
    (types : List (ResourceTypeName × ValidatedResourceType))
    → IsResourceType rt
    → TypesHold types
    → TypesHold (Assoc.insert name rt types)
unfolding Assoc.insert
insert-TypesHold name rt [] t h = (t, tt)
insert-TypesHold name rt ((n, w) ∷ types) t (here, later) = elim (Bool-cases (n == name)) [
  | inl e ↦ rw e (t, later)
  | inr e ↦ rw e (here, insert-TypesHold name rt types t later)
]

lineage_first : (a b : Bool) → not (a && b) ≡ true → a ≡ true → b ≡ false
lineage_first a b h e = ground arith

is_some-none : {A : Type 0} (o : Option A) → is_some o ≡ false → o ≡ none
is_some-none none h = refl
is_some-none (some a) h = cc

revision-positive : (n : ℕ) (r : GrantRevision) → new_grant_revision n ≡ ok r → ¬ (r.get ≡ 0)
unfolding new_grant_revision
revision-positive n r h = elim (Bool-cases (eqb n 0)) [
  | inl e ↦ cc (rw e at h)
  | inr e ↦
      let same = (ok_iff {E = TrustGrantError} (record { get = n }) r).0 (rw e at h) in
      rw same (λ z. cc ((eqb_iff n 0).1 z))
]

module _ (to_lowercase : Text → Text) where
  collect-IsResourceScope :
      (raws : List (Text × RawResourceType))
      (collected types : List (ResourceTypeName × ValidatedResourceType))
      → IsResourceScope collected
      → collect_resource_types to_lowercase collected raws ≡ ok types
      → IsResourceScope types
  unfolding collect_resource_types
  collect-IsResourceScope [] collected types w h =
      let e = (ok_iff {E = TrustGrantError} collected types).0 h in rw e w
  collect-IsResourceScope ((name, raw) ∷ raws) collected types w h =
      let (name', _, h₁) = >>=-eq-ok (new_resource_type_name name) _ h in
      let (rt, t, h₂) = >>=-eq-ok (validate_resource_type to_lowercase raw) _ h₁ in
      collect-IsResourceScope raws (Assoc.insert name' rt collected) types
        (record {
          distinct = insert-Distinct name' rt collected w.distinct;
          each =
              insert-TypesHold name' rt collected
                (validate_resource_type-IsResourceType to_lowercase raw rt t) w.each;
        })
        h₂

  validate_resource_scope-IsResourceScope :
      (raws : List (Text × RawResourceType))
      (types : List (ResourceTypeName × ValidatedResourceType))
      → validate_resource_scope to_lowercase raws ≡ ok types
      → IsResourceScope types
  unfolding validate_resource_scope
  validate_resource_scope-IsResourceScope raws types h =
      let (_, _, h₁) =
        >>=-eq-ok (ensure_collection_limit "resource_scope.types" (length raws) max_resource_types)
          _ h in
      collect-IsResourceScope raws [] types (record { distinct = tt; each = tt }) h₁

  module _ (parse_str : Text → Option Uuid) where
    validate_lineage-IsLineage :
        (raw : RawTrustGrantDocument) (l : GrantLineage)
        → validate_lineage to_lowercase parse_str raw ≡ ok l
        → IsLineage l
    unfolding validate_lineage
    validate_lineage-IsLineage raw l h =
        let (_, h₁) =
          (check_iff (guard (eqb raw.version 0) (invalid_protocol_version raw.version)) _ l).0 h in
        let (id, _, h₂) = >>=-eq-ok (parse_prefixed_uuid parse_str raw.trustgrant_id "tg") _ h₁ in
        let (series, _, h₃) =
          >>=-eq-ok (parse_prefixed_uuid parse_str raw.grant_series_id "tgs") _ h₂ in
        let (revision, positive, h₄) = >>=-eq-ok (new_grant_revision raw.revision) _ h₃ in
        let (supersedes, _, h₅) =
          >>=-eq-ok (traverse_option (λ i. parse_prefixed_uuid parse_str i "tg") raw.supersedes) _
            h₄ in
        let (first, h₆) =
          (check_iff
              (guard (not (eqb revision.get 1 && is_some supersedes))
                invalid_supersedes_for_first_revision)
              _ l).0
            h₅ in
        let made : GrantLineage = record {
          trustgrant_id = id;
          grant_series_id = series;
          revision = revision;
          supersedes = supersedes;
          supersession_policy = policy_of raw.supersession_policy;
        } in
        let (other, h₇) =
          (check_iff (guard (not (supersedes == some id)) self_supersession) (ok made) l).0 h₆ in
        let e = (ok_iff {E = TrustGrantError} made l).0 h₇ in
        let first_test =
          (guard_iff (not (eqb revision.get 1 && is_some supersedes))
              invalid_supersedes_for_first_revision).0
            first in
        let other_test = (guard_iff (not (supersedes == some id)) self_supersession).0 other in
        rw e (record {
          positive = revision-positive raw.revision revision positive;
          first = λ one. is_some-none supersedes (
              lineage_first (eqb revision.get 1) (is_some supersedes) first_test
                ((eqb_iff revision.get 1).1 one));
          other = λ same.
              let found = (eq_option_iff supersedes (some id)).1 same in
              cc (rw found at other_test);
        })

    -- A raw document that is validated gives a well-formed one: its lineage has a positive revision,
    -- supersedes nothing at revision one and never itself; every scope takes all or allows some, not
    -- both, and repeats no selector; no audience names an authority twice; every resource type is
    -- well formed and has one entry; and its time window does not end before it starts.
    pub try_from-IsDocument :
        (raw : RawTrustGrantDocument) (d : ValidatedTrustGrantDocument)
        → try_from to_lowercase parse_str raw ≡ ok d
        → IsDocument d
    unfolding try_from
    try_from-IsDocument raw d h =
        let (lineage, l, h₁) = >>=-eq-ok (validate_lineage to_lowercase parse_str raw) _ h in
        let (issuer, _, h₂) = >>=-eq-ok (new_authority_id to_lowercase raw.issuer_authority) _ h₁ in
        let (origin, _, h₃) = >>=-eq-ok (new_authority_id to_lowercase raw.origin_authority) _ h₂ in
        let (owner, _, h₄) =
          >>=-eq-ok (new_authority_id to_lowercase raw.active_owning_authority) _ h₃ in
        let (key_id, _, h₅) = >>=-eq-ok (new_key_id raw.key_id) _ h₄ in
        let (signature, _, h₆) =
          >>=-eq-ok (normalize_non_empty_string "signature" raw.signature none) _ h₅ in
        let (target, t, h₇) = >>=-eq-ok (validate_scope "target_scope" raw.target_scope) _ h₆ in
        let (audience, a, h₈) =
          >>=-eq-ok
            (validate_audience_entries to_lowercase "default_audience_scope"
              raw.default_audience_scope)
            _ h₇ in
        let (types, r, h₉) =
          >>=-eq-ok (validate_resource_scope to_lowercase raw.resource_scope.types) _ h₈ in
        let (window, w, h₁₀) =
          >>=-eq-ok (validate_global_constraints raw.global_constraints) _ h₉ in
        let (principal, _, h₁₁) =
          >>=-eq-ok (traverse_option validate_principal raw.issuer_principal) _ h₁₀ in
        let e = ok_iff {E = TrustGrantError} _ d in
        rw (e.0 h₁₁) (record {
          lineage = validate_lineage-IsLineage raw lineage l;
          target_scope = validate_scope-IsScope "target_scope" raw.target_scope target t;
          audience =
              validate_audience_entries-IsAudience to_lowercase "default_audience_scope"
                raw.default_audience_scope audience a;
          resource_scope = validate_resource_scope-IsResourceScope raw.resource_scope.types types r;
          window = validate_global_constraints-IsWindow raw.global_constraints window w;
        })
