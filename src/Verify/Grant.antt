-- ===== src/Verify/Grant.antt =====
-- crates/trustgrant-verify/src/verified_grant.rs: what is kept of a document after verification.
use trustgrant.Prelude.{Option, List}
use trustgrant.Domain.Names.{ResourceTypeName, KeyId}
use trustgrant.Domain.Authority.{AuthorityId, OwnershipAuthorityState}
use trustgrant.Domain.Lineage.{GrantLineage}
use trustgrant.Domain.Ownership.{Instant, OwnershipVerificationRecord}
use trustgrant.Document.Model.{
  ValidatedScope, ValidatedCapabilities, ValidatedAudienceEntry, ValidatedResourceType,
  ValidatedTimeWindow, ValidatedRevocation, ValidatedPrincipal, InteroperabilityProfile,
  ValidatedTrustGrantDocument,
}
use trustgrant.Discovery.{ResolvedSignerBinding}
use trustgrant.Revocation.{VerifiedRevocationState}
use trustgrant.Ports.{VerificationPosture}

-- A validated document without its signature.
pub record NormalizedTrustGrantDocument : Type 0 where
  pub lineage : GrantLineage
  pub issuer_authority : AuthorityId
  pub ownership_authority_state : OwnershipAuthorityState
  pub key_id : KeyId
  pub target_scope : ValidatedScope
  pub capabilities : ValidatedCapabilities
  pub default_audience_scope : List ValidatedAudienceEntry
  pub resource_scope : List (ResourceTypeName × ValidatedResourceType)
  pub global_time_window : Option ValidatedTimeWindow
  pub revocation : Option ValidatedRevocation
  pub issued_at : Instant
  pub issuer_principal : Option ValidatedPrincipal
  pub interoperability_profile : Option InteroperabilityProfile

-- `From<ValidatedTrustGrantDocument>`
unfoldable pub normalize : ValidatedTrustGrantDocument → NormalizedTrustGrantDocument
normalize d = record {
  lineage = d.lineage;
  issuer_authority = d.issuer_authority;
  ownership_authority_state = d.ownership_authority_state;
  key_id = d.key_id;
  target_scope = d.target_scope;
  capabilities = d.capabilities;
  default_audience_scope = d.default_audience_scope;
  resource_scope = d.resource_scope;
  global_time_window = d.global_time_window;
  revocation = d.revocation;
  issued_at = d.issued_at;
  issuer_principal = d.issuer_principal;
  interoperability_profile = d.interoperability_profile;
}

pub record VerificationMetadata : Type 0 where
  pub verified_at : Instant
  pub posture : VerificationPosture
  pub signer_binding : ResolvedSignerBinding
  pub ownership : OwnershipVerificationRecord
  pub revocation : VerifiedRevocationState

pub record VerifiedTrustGrant : Type 0 where
  pub document : NormalizedTrustGrantDocument
  pub metadata : VerificationMetadata
