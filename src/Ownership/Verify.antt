-- ===== src/Ownership/Verify.antt =====
-- crates/trustgrant-ownership/src/verify.rs: one transition, with the signatures of both parties. The
-- verifier and the source of keys are those of the ports.
use trustgrant.Prelude.{
  not, Option, none, Result, ok, err, ◌>>=◌, ◌>>◌, guard, ◌==◌, list_eq, nat_eq, eq_list, is_some,
  leb,
}
use trustgrant.Prelude.Text.{Text, codes}
use trustgrant.Errors.Kinds.{
  TrustGrantError, signer_authority_mismatch, key_id_mismatch, signature_profile_mismatch,
  signer_key_inactive, issuer_principal_mismatch, invalid_ownership_transition_acceptance_time,
  ownership_transition_predecessor_signature_failed,
  ownership_transition_successor_signature_failed,
}
use trustgrant.Domain.Ids.{Uuid}
use trustgrant.Domain.Names.{KeyId, key_id_eq}
use trustgrant.Domain.Authority.{AuthorityId, authority_id_eq, same_authority}
use trustgrant.Domain.Ownership.{Instant, OwnershipTransitionRecord}
use trustgrant.Domain.Canonicalization.{CanonicalizationProfile, rfc8785, discovery_name}
use trustgrant.Discovery.{ResolvedSignerBinding, is_active_at}
use trustgrant.Document.Transition.Raw.{
  RawOwnershipTransitionDocument, ValidatedOwnershipTransitionDocument,
}
use trustgrant.Document.Transition.Validate.{transition_try_from, to_record}
use trustgrant.Canonical.Writer.{Formats}
use trustgrant.Ports.{
  VerificationPosture, VerificationContext, SignatureVerifier, AuthorityDiscoverySource,
}
use trustgrant.Ownership.Canonicalize.Documents.{
  canonicalize_transition_proposal, canonicalize_transition_acceptance,
}

pub record OwnershipTransitionVerificationMetadata : Type 0 where
  pub verified_at : Instant
  pub posture : VerificationPosture
  pub predecessor_signer_binding : ResolvedSignerBinding
  pub successor_signer_binding : ResolvedSignerBinding

pub record VerifiedOwnershipTransition : Type 0 where
  pub document : ValidatedOwnershipTransitionDocument
  pub metadata : OwnershipTransitionVerificationMetadata
  pub transition_record : OwnershipTransitionRecord

unfoldable pub ensure_transition_signer_binding :
    ResolvedSignerBinding
    → AuthorityId
    → KeyId
    → CanonicalizationProfile
    → Instant
    → Result TrustGrantError (Unit {0})
unfolding same_authority eq_list discovery_name is_active_at
ensure_transition_signer_binding binding expected_authority expected_key_id profile verified_at = do
  guard (binding.issuer_authority == expected_authority) signer_authority_mismatch
  guard (binding.key_record.key_id == expected_key_id) key_id_mismatch
  guard (binding.signature_profile.canonicalization.as_str == codes (discovery_name profile))
      signature_profile_mismatch
  guard (is_active_at binding.key_record verified_at) signer_key_inactive
  guard (not (is_some binding.delegated_principal)) issuer_principal_mismatch

-- `map_err(|_error| ...)`
abbrev pub or_fail :
    {A : Type 0} → Result TrustGrantError A → TrustGrantError → Result TrustGrantError A
or_fail (ok a) problem = ok a
or_fail (err e) problem = err problem

module _ (formats : Formats) (verifier : SignatureVerifier) where
  -- The part of `verify_raw_document` behind the two look-ups of keys.
  unfoldable pub verify_signatures :
      VerificationContext
      → RawOwnershipTransitionDocument
      → ValidatedOwnershipTransitionDocument
      → ResolvedSignerBinding
      → ResolvedSignerBinding
      → Result TrustGrantError VerifiedOwnershipTransition
  unfolding ensure_transition_signer_binding canonicalize_transition_proposal
      canonicalize_transition_acceptance to_record
  verify_signatures context raw document predecessor successor = do
    ensure_transition_signer_binding predecessor document.parties.predecessor_authority
        document.predecessor_signature.key_id rfc8785 context.verified_at
    ensure_transition_signer_binding successor document.parties.successor_authority
        document.successor_acceptance.key_id rfc8785 context.verified_at
    guard (leb document.successor_acceptance.accepted_at context.verified_at)
        invalid_ownership_transition_acceptance_time
    proposal_bytes ← canonicalize_transition_proposal formats raw rfc8785
    or_fail
        (verifier.verify_signature (record {
          canonical_bytes = proposal_bytes;
          canonicalization_profile = rfc8785;
          signer_binding = predecessor;
          signature = document.predecessor_signature.signature;
        }))
        ownership_transition_predecessor_signature_failed
    acceptance_bytes ← canonicalize_transition_acceptance formats raw rfc8785
    or_fail
        (verifier.verify_signature (record {
          canonical_bytes = acceptance_bytes;
          canonicalization_profile = rfc8785;
          signer_binding = successor;
          signature = document.successor_acceptance.signature;
        }))
        ownership_transition_successor_signature_failed
    transition ← to_record document
    ok (record {
      document = document;
      metadata = record {
        verified_at = context.verified_at;
        posture = context.posture;
        predecessor_signer_binding = predecessor;
        successor_signer_binding = successor;
      };
      transition_record = transition;
    })

module _ (to_lowercase : Text → Text) (parse_str : Text → Option Uuid) (formats : Formats)
    (verifier : SignatureVerifier) where
  -- `verify_raw_document`
  unfoldable pub verify_transition :
      AuthorityDiscoverySource
      → VerificationContext
      → RawOwnershipTransitionDocument
      → Result TrustGrantError VerifiedOwnershipTransition
  unfolding transition_try_from verify_signatures
  verify_transition discovery_source context raw = do
    document ← transition_try_from to_lowercase parse_str raw
    predecessor ←
        discovery_source.resolve_signer_binding document.parties.predecessor_authority
          document.predecessor_signature.key_id none context
    successor ←
        discovery_source.resolve_signer_binding document.parties.successor_authority
          document.successor_acceptance.key_id none context
    verify_signatures formats verifier context raw document predecessor successor
