-- ===== src/Ports.antt =====
-- crates/trustgrant-ports/src: what the verification asks of code outside it (verification.rs), and
-- what it asks to be verified (signature.rs). A trait is a record of its methods.
use trustgrant.Prelude.{List, Option, Result}
use trustgrant.Prelude.Text.{Text}
use trustgrant.Errors.Kinds.{TrustGrantError}
use trustgrant.Domain.Names.{KeyId}
use trustgrant.Domain.Authority.{AuthorityId}
use trustgrant.Domain.Ownership.{Instant}
use trustgrant.Domain.Canonicalization.{CanonicalizationProfile}
use trustgrant.Revocation.{RevocationRecord}
use trustgrant.Discovery.{ResolvedSignerBinding}
use trustgrant.Document.Model.{ValidatedPrincipal, ValidatedTrustGrantDocument}
use trustgrant.Document.Transition.Raw.{RawOwnershipTransitionDocument}
use trustgrant.Canonical.Writer.{Bytes}

pub data VerificationPosture : Type 0 where
  online cached offline : VerificationPosture

pub record VerificationContext : Type 0 where
  pub verified_at : Instant
  pub posture : VerificationPosture

pub record SignatureVerificationRequest : Type 0 where
  pub canonical_bytes : Bytes
  pub canonicalization_profile : CanonicalizationProfile
  pub signer_binding : ResolvedSignerBinding
  pub signature : Text

pub record SignatureVerifier : Type 0 where
  pub verify_signature : SignatureVerificationRequest → Result TrustGrantError (Unit {0})

pub record AuthorityDiscoverySource : Type 0 where
  pub resolve_signer_binding :
      AuthorityId
      → KeyId
      → Option ValidatedPrincipal
      → VerificationContext
      → Result TrustGrantError ResolvedSignerBinding

pub record RevocationProofSource : Type 0 where
  pub resolve_revocation_record :
      ValidatedTrustGrantDocument
      → ResolvedSignerBinding
      → VerificationContext
      → Result TrustGrantError RevocationRecord

pub record OwnershipTransitionProofSource : Type 0 where
  pub resolve_ownership_transition_chain :
      ValidatedTrustGrantDocument
      → VerificationContext
      → Result TrustGrantError (List RawOwnershipTransitionDocument)

pub record VerificationSources : Type 0 where
  pub discovery_source : AuthorityDiscoverySource
  pub revocation_source : RevocationProofSource
  pub ownership_source : OwnershipTransitionProofSource
