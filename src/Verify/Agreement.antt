-- ===== src/Verify/Agreement.antt =====
-- consistency.rs: what the checks on the metadata of a verification mean.
use trustgrant.Prelude.{
  true, Option, none, some, ◌≡◌, ◌↔◌, refl, ok, guard_iff, and-eq-true, ◌==◌, list_eq, nat_eq,
  eq_list_iff,
}
use trustgrant.Prelude.Text.{codes}
use trustgrant.Errors.Kinds.{
  signer_authority_mismatch, key_id_mismatch, signature_profile_mismatch, signer_key_inactive,
  issuer_principal_mismatch, ownership_origin_mismatch, active_owning_authority_mismatch,
}
use trustgrant.Domain.Names.{key_id_eq, principal_kind_eq, principal_id_eq}
use trustgrant.Domain.Authority.{authority_id_eq, same_authority_iff}
use trustgrant.Domain.Canonicalization.{rfc8785, discovery_name}
use trustgrant.Discovery.{DelegatedPrincipalRef, is_active_at}
use trustgrant.Discovery.Active.{IsActive, IsActive-iff}
use trustgrant.Document.Model.{ValidatedPrincipal, ValidatedTrustGrantDocument}
use trustgrant.Ownership.Validity.{guard_decides}
use trustgrant.Verify.Grant.{VerificationMetadata}
use trustgrant.Verify.Consistency.{same_principal, ensure_metadata_matches_document}

-- The signer's principal is the document's.
abbrev pub SamePrincipal : Option DelegatedPrincipalRef → Option ValidatedPrincipal → Type 0
SamePrincipal none none = Unit
SamePrincipal (some b) (some p) = (b.kind ≡ p.kind) × (b.id ≡ p.id)
SamePrincipal _ _ = ⊥

pub record Agrees (m : VerificationMetadata) (d : ValidatedTrustGrantDocument) : Type 0 where
  pub issuer : m.signer_binding.issuer_authority ≡ d.issuer_authority
  pub key : m.signer_binding.key_record.key_id ≡ d.key_id
  pub profile : m.signer_binding.signature_profile.canonicalization.as_str ≡ codes "RFC8785"
  pub active : IsActive m.signer_binding.key_record m.verified_at
  pub principal : SamePrincipal m.signer_binding.delegated_principal d.issuer_principal
  pub origin : m.ownership.origin_authority ≡ d.ownership_authority_state.origin_authority
  pub owner :
      m.ownership.active_owning_authority ≡ d.ownership_authority_state.active_owning_authority

same_principal_iff :
    (b : Option DelegatedPrincipalRef) (p : Option ValidatedPrincipal)
    → (same_principal b p ≡ true) ↔ SamePrincipal b p
same_principal_iff none none = (λ _. tt, λ _. refl)
same_principal_iff (some b) (some p) =
    let (both, both') = and-eq-true (b.kind == p.kind) (b.id == p.id) in
    let (kind, kind') = principal_kind_eq.beq_iff b.kind p.kind in
    let (id, id') = principal_id_eq.beq_iff b.id p.id in
    (λ h. let (k, i) = both h in (kind k, id i), λ (k, i). both' (kind' k, id' i))
same_principal_iff none (some p) = (λ h. cc, λ h. elim h [ ])
same_principal_iff (some b) none = (λ h. cc, λ h. elim h [ ])

-- The metadata passes the checks against the document exactly when they agree on the issuer, the
-- key, the profile, the principal and both authorities, and the key is active at that time.
pub ensure_metadata_matches_document_iff :
    (m : VerificationMetadata) (d : ValidatedTrustGrantDocument)
    → (ensure_metadata_matches_document m d rfc8785 ≡ ok tt) ↔ Agrees m d
unfolding ensure_metadata_matches_document discovery_name
ensure_metadata_matches_document_iff m d =
    let b = m.signer_binding in
    let state = d.ownership_authority_state in
    let (a₁, b₁) =
      guard_decides (b.issuer_authority == d.issuer_authority) signer_authority_mismatch _ tt
        (same_authority_iff b.issuer_authority d.issuer_authority) in
    let (a₂, b₂) =
      guard_decides (b.key_record.key_id == d.key_id) key_id_mismatch _ tt
        (key_id_eq.beq_iff b.key_record.key_id d.key_id) in
    let (a₃, b₃) =
      guard_decides (b.signature_profile.canonicalization.as_str == codes "RFC8785")
        signature_profile_mismatch _ tt
        (eq_list_iff b.signature_profile.canonicalization.as_str (codes "RFC8785")) in
    let (a₄, b₄) =
      guard_decides (is_active_at b.key_record m.verified_at) signer_key_inactive _ tt
        (IsActive-iff b.key_record m.verified_at) in
    let (a₅, b₅) =
      guard_decides (same_principal b.delegated_principal d.issuer_principal)
        issuer_principal_mismatch _ tt
        (same_principal_iff b.delegated_principal d.issuer_principal) in
    let (a₆, b₆) =
      guard_decides (m.ownership.origin_authority == state.origin_authority)
        ownership_origin_mismatch _ tt
        (same_authority_iff m.ownership.origin_authority state.origin_authority) in
    let (g, g') =
      guard_iff (m.ownership.active_owning_authority == state.active_owning_authority)
        active_owning_authority_mismatch in
    let (o, o') =
      same_authority_iff m.ownership.active_owning_authority state.active_owning_authority in
    (
      λ h.
          let (p₁, h₁) = a₁ h in
          let (p₂, h₂) = a₂ h₁ in
          let (p₃, h₃) = a₃ h₂ in
          let (p₄, h₄) = a₄ h₃ in
          let (p₅, h₅) = a₅ h₄ in
          let (p₆, h₆) = a₆ h₅ in
          record {
            issuer = p₁;
            key = p₂;
            profile = p₃;
            active = p₄;
            principal = p₅;
            origin = p₆;
            owner = o (g h₆);
          },
      λ a. b₁ (
        a.issuer,
        b₂ (a.key, b₃ (a.profile, b₄ (a.active, b₅ (a.principal, b₆ (a.origin, g' (o' a.owner)))))),
      ),
    )
