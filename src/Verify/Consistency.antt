-- ===== src/Verify/Consistency.antt =====
-- crates/trustgrant-verify/src/consistency.rs: what the metadata of a verification must agree on with
-- the document.
use trustgrant.Prelude.{
  Bool, true, false, ◌&&◌, not, Option, none, some, Result, ok, err, ◌>>◌, guard, ◌==◌, list_eq,
  nat_eq, eq_list,
}
use trustgrant.Prelude.Text.{codes}
use trustgrant.Errors.Kinds.{
  TrustGrantError, signer_authority_mismatch, key_id_mismatch, signature_profile_mismatch,
  signer_key_inactive, issuer_principal_mismatch, ownership_origin_mismatch,
  active_owning_authority_mismatch, missing_revocation_proof,
  unexpected_revocation_proof_for_non_revocable_grant, stale_revocation_record,
  verification_posture_requires_non_live_revocation, insufficient_revocation_proof_finality,
}
use trustgrant.Domain.Names.{key_id_eq, principal_kind_eq, principal_id_eq}
use trustgrant.Domain.Authority.{authority_id_eq, same_authority}
use trustgrant.Domain.Canonicalization.{CanonicalizationProfile, rfc8785, discovery_name}
use trustgrant.Revocation.{
  RevocationRecord, VerifiedRevocationState, non_revocable, checked, is_fresh_at, checked_record,
}
use trustgrant.Discovery.{DelegatedPrincipalRef, is_active_at}
use trustgrant.Document.Model.{ValidatedPrincipal, ValidatedTrustGrantDocument}
use trustgrant.Ports.{VerificationPosture}
use trustgrant.Verify.Policy.{
  for_posture, accepts_revocation_finality, accepts_revocation_source_kind,
}
use trustgrant.Verify.Grant.{VerificationMetadata}

-- The match on the two principals.
abbrev pub same_principal : Option DelegatedPrincipalRef → Option ValidatedPrincipal → Bool
same_principal none none = true
same_principal (some binding) (some principal) =
    binding.kind == principal.kind && binding.id == principal.id
same_principal _ _ = false

unfoldable pub ensure_metadata_matches_document :
    VerificationMetadata
    → ValidatedTrustGrantDocument
    → CanonicalizationProfile
    → Result TrustGrantError (Unit {0})
unfolding same_authority eq_list discovery_name is_active_at
ensure_metadata_matches_document metadata document profile = do
  let binding = metadata.signer_binding
  let state = document.ownership_authority_state
  guard (binding.issuer_authority == document.issuer_authority) signer_authority_mismatch
  guard (binding.key_record.key_id == document.key_id) key_id_mismatch
  guard (binding.signature_profile.canonicalization.as_str == codes (discovery_name profile))
      signature_profile_mismatch
  guard (is_active_at binding.key_record metadata.verified_at) signer_key_inactive
  guard (same_principal binding.delegated_principal document.issuer_principal)
      issuer_principal_mismatch
  guard (metadata.ownership.origin_authority == state.origin_authority) ownership_origin_mismatch
  guard (metadata.ownership.active_owning_authority == state.active_owning_authority)
      active_owning_authority_mismatch

unfoldable pub requires_revocation_check : ValidatedTrustGrantDocument → Bool
requires_revocation_check document = elim document.revocation [
  | none ↦ false
  | some revocation ↦ revocation.revocable
]

-- The match on whether a proof is required and whether there is one.
abbrev pub proof_fits : Bool → VerifiedRevocationState → Result TrustGrantError (Unit {0})
proof_fits true non_revocable = err missing_revocation_proof
proof_fits false (checked r) = err unexpected_revocation_proof_for_non_revocable_grant
proof_fits true (checked r) = ok tt
proof_fits false non_revocable = ok tt

unfoldable pub ensure_revocation_state_matches_document :
    VerificationMetadata → ValidatedTrustGrantDocument → Result TrustGrantError (Unit {0})
unfolding requires_revocation_check
ensure_revocation_state_matches_document metadata document =
    proof_fits (requires_revocation_check document) metadata.revocation

-- What the posture asks of a record.
unfoldable pub ensure_record_is_acceptable :
    VerificationMetadata → RevocationRecord → Result TrustGrantError (Unit {0})
unfolding is_fresh_at for_posture accepts_revocation_source_kind accepts_revocation_finality
ensure_record_is_acceptable metadata r = do
  guard (is_fresh_at r metadata.verified_at) stale_revocation_record
  let policy = for_posture metadata.posture
  guard
      (not (
        policy.require_non_live_revocation_source
        && not (accepts_revocation_source_kind policy r.source_kind)))
      verification_posture_requires_non_live_revocation
  guard (accepts_revocation_finality policy r.finality) insufficient_revocation_proof_finality

-- `let Some(record) = ... else { return Ok(()) }`
abbrev pub acceptable :
    VerificationMetadata → Option RevocationRecord → Result TrustGrantError (Unit {0})
acceptable metadata none = ok tt
acceptable metadata (some r) = ensure_record_is_acceptable metadata r

unfoldable pub ensure_revocation_state_is_acceptable :
    VerificationMetadata → Result TrustGrantError (Unit {0})
unfolding checked_record ensure_record_is_acceptable
ensure_revocation_state_is_acceptable metadata =
    acceptable metadata (checked_record metadata.revocation)

unfoldable pub canonical_profile_for_rehydrate : VerificationPosture → CanonicalizationProfile
canonical_profile_for_rehydrate posture = rfc8785
