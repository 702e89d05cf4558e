-- ===== src/Verify/Pipeline.antt =====
-- crates/trustgrant-verify/src/pipeline.rs: from a raw document to a verified grant. Parsing JSON and
-- logging are left out.
use trustgrant.Prelude.{Bool, true, false, Option, Result, ok, ◌>>=◌, ◌>>◌, traverse}
use trustgrant.Prelude.Text.{Text}
use trustgrant.Errors.Kinds.{TrustGrantError}
use trustgrant.Domain.Ids.{Uuid}
use trustgrant.Domain.Ownership.{OwnershipTransitionRecord}
use trustgrant.Domain.Canonicalization.{rfc8785}
use trustgrant.Revocation.{VerifiedRevocationState, non_revocable, checked}
use trustgrant.Discovery.{ResolvedSignerBinding}
use trustgrant.Document.Model.{ValidatedTrustGrantDocument}
use trustgrant.Document.Raw.{RawTrustGrantDocument}
use trustgrant.Document.Validate.{try_from}
use trustgrant.Document.Transition.Raw.{RawOwnershipTransitionDocument}
use trustgrant.Canonical.Writer.{Bytes, Formats}
use trustgrant.Ports.{
  VerificationContext, VerificationSources, AuthorityDiscoverySource, SignatureVerifier,
}
use trustgrant.Ownership.Chain.{verify_document_ownership}
use trustgrant.Ownership.Verify.{verify_transition}
use trustgrant.Verify.Canonicalize.Document.{canonicalize_trustgrant}
use trustgrant.Verify.Consistency.{
  ensure_metadata_matches_document, ensure_revocation_state_matches_document,
  ensure_revocation_state_is_acceptable, requires_revocation_check,
}
use trustgrant.Verify.Grant.{VerificationMetadata, VerifiedTrustGrant, normalize}

pub record VerificationArtifacts : Type 0 where
  pub verified_grant : VerifiedTrustGrant
  pub canonical_bytes : Bytes

module _ (formats : Formats) (verifier : SignatureVerifier) where
  unfoldable pub verify_impl :
      RawTrustGrantDocument
      → ValidatedTrustGrantDocument
      → VerificationMetadata
      → Result TrustGrantError VerificationArtifacts
  unfolding canonicalize_trustgrant ensure_metadata_matches_document
      ensure_revocation_state_matches_document ensure_revocation_state_is_acceptable normalize
  verify_impl raw document metadata = do
    canonical_bytes ← canonicalize_trustgrant formats raw rfc8785
    ensure_metadata_matches_document metadata document rfc8785
    ensure_revocation_state_matches_document metadata document
    ensure_revocation_state_is_acceptable metadata
    verifier.verify_signature (record {
      canonical_bytes = canonical_bytes;
      canonicalization_profile = rfc8785;
      signer_binding = metadata.signer_binding;
      signature = document.signature;
    })
    ok (record {
      verified_grant = record { document = normalize document; metadata = metadata };
      canonical_bytes = canonical_bytes;
    })

unfoldable pub resolve_revocation :
    VerificationSources
    → VerificationContext
    → ValidatedTrustGrantDocument
    → ResolvedSignerBinding
    → Bool
    → Result TrustGrantError VerifiedRevocationState
resolve_revocation sources context document signer_binding true = do
  r ← sources.revocation_source.resolve_revocation_record document signer_binding context
  ok (checked r)
resolve_revocation sources context document signer_binding false = ok non_revocable

module _ (to_lowercase : Text → Text) (parse_str : Text → Option Uuid) (formats : Formats)
    (verifier : SignatureVerifier) where
  unfoldable pub verify_raw_document :
      RawTrustGrantDocument → VerificationMetadata → Result TrustGrantError VerificationArtifacts
  unfolding try_from verify_impl
  verify_raw_document raw metadata = do
    document ← try_from to_lowercase parse_str raw
    verify_impl formats verifier raw document metadata

  -- One transition of the chain: verified, and of it its record.
  unfoldable pub verified_record :
      AuthorityDiscoverySource
      → VerificationContext
      → RawOwnershipTransitionDocument
      → Result TrustGrantError OwnershipTransitionRecord
  unfolding verify_transition
  verified_record discovery_source context raw = do
    transition ←
        verify_transition to_lowercase parse_str formats verifier discovery_source context raw
    ok transition.transition_record

  unfoldable pub verify_raw_document_with_sources :
      RawTrustGrantDocument
      → VerificationSources
      → VerificationContext
      → Result TrustGrantError VerificationArtifacts
  unfolding try_from traverse verified_record verify_document_ownership resolve_revocation
      requires_revocation_check verify_impl
  verify_raw_document_with_sources raw sources context = do
    document ← try_from to_lowercase parse_str raw
    signer_binding ←
        sources.discovery_source.resolve_signer_binding document.issuer_authority document.key_id
          document.issuer_principal context
    raw_transitions ← sources.ownership_source.resolve_ownership_transition_chain document context
    transitions ← traverse (verified_record sources.discovery_source context) raw_transitions
    ownership ← verify_document_ownership document context.verified_at transitions
    revocation ←
        resolve_revocation sources context document signer_binding
          (requires_revocation_check document)
    verify_impl formats verifier raw document (record {
      verified_at = context.verified_at;
      posture = context.posture;
      signer_binding = signer_binding;
      ownership = ownership;
      revocation = revocation;
    })
