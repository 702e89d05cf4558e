-- ===== src/Verify/Keys.antt =====
-- verified_grant.rs: the types of a raw document are those of the verified grant, in the order of their
-- keys.
use trustgrant.Prelude.{List, [], ◌≡◌, ◌↔◌, ok, >>=-eq-ok, ok_iff, inl, inr, All, Distinct}
use mathlib.Core.List.{map}
use trustgrant.Prelude.Text.{Text}
use trustgrant.Errors.Kinds.{TrustGrantError}
use trustgrant.Domain.Ids.{Uuid}
use trustgrant.Domain.Canonicalization.Order.{IsScalars}
use trustgrant.Domain.Canonicalization.Keys.{
  IsInOrder, Has, collect_keys-IsInOrder, collect_keys-Has, collect_keys-only,
}
use trustgrant.Document.Raw.{RawTrustGrantDocument, RawResourceType}
use trustgrant.Verify.Grant.{NormalizedTrustGrantDocument}
use trustgrant.Verify.Raw.{into_raw_document_for_consistency_check, wire_policy, raw_resource_type}

-- The types of a grant with their keys, as raw ones.
abbrev pub raw_types : NormalizedTrustGrantDocument → List (Text × RawResourceType)
raw_types d = map (λ entry. (entry.0.as_str, raw_resource_type entry.1)) d.resource_scope

-- The raw document that a verified grant is turned back into has the types of the grant and no others,
-- each key before all that follow in the order of UTF-16, when the names are made of scalar values,
-- as every `str` is, and no two are the same, as in every map.
pub into_raw_document_for_consistency_check-IsInOrder :
    (uuid_text : Uuid → Text) (d : NormalizedTrustGrantDocument) (raw : RawTrustGrantDocument)
    → All (λ e. IsScalars e.0) (raw_types d)
    → Distinct (map (λ e. e.0) (raw_types d))
    → into_raw_document_for_consistency_check uuid_text d ≡ ok raw
    → IsInOrder raw.resource_scope.types
      × ((entry : Text × RawResourceType)
          → Has entry raw.resource_scope.types ↔ Has entry (raw_types d))
unfolding into_raw_document_for_consistency_check
into_raw_document_for_consistency_check-IsInOrder uuid_text d raw scalars distinct h =
    let (policy, e, h₁) = >>=-eq-ok (wire_policy d.lineage.supersession_policy) _ h in
    rw ((ok_iff {E = TrustGrantError} _ raw).0 h₁) (
      collect_keys-IsInOrder [] (raw_types d) tt scalars tt,
      λ entry. (
        λ there. elim (collect_keys-only entry [] (raw_types d) tt scalars there) [
          | inl x ↦ absurd x
          | inr x ↦ x
        ],
        collect_keys-Has entry [] (raw_types d) tt scalars distinct,
      ),
    )
