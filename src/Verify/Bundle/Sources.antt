-- ===== src/Verify/Bundle/Sources.antt =====
-- bundle.rs: a bundle as the sources of a verification.
use trustgrant.Prelude.{
  ℕ, Option, none, some, List, Result, ok, ◌>>=◌, ◌>>◌, guard, ok_or, list_eq, nat_eq, eq_list,
  length, is_some, unwrap_or_default,
}
use trustgrant.Prelude.Assoc
use trustgrant.Errors.Kinds.{
  TrustGrantError, missing_authority_discovery_document, delegation_not_supported,
  missing_delegated_principal_document, missing_revocation_proof,
}
use trustgrant.Errors.Limits.{ensure_collection_limit, max_ownership_chain_length}
use trustgrant.Domain.Names.{KeyId, principal_kind_eq, principal_id_eq}
use trustgrant.Domain.Authority.{AuthorityId, authority_id_eq, same_authority}
use trustgrant.Domain.Ownership.{Instant}
use trustgrant.Revocation.{RevocationRecord}
use trustgrant.Discovery.{ResolvedSignerBinding}
use trustgrant.Discovery.Source.{resolve_root_signer_binding, resolve_delegated_signer_binding}
use trustgrant.Discovery.Equality.{
  authority_discovery_document_eq, delegated_principal_key_document_eq,
}
use trustgrant.Document.Model.{ValidatedPrincipal, ValidatedTrustGrantDocument}
use trustgrant.Document.Transition.Raw.{RawOwnershipTransitionDocument}
use trustgrant.Document.Transition.Equality.{raw_transition_eq}
use trustgrant.Ports.{VerificationSources}
use trustgrant.Verify.Bundle.Proof.{bundle_revocation_proof_eq, to_record_for}
use trustgrant.Verify.Bundle.Store.{TrustGrantProofBundle, find_delegated}

-- `resolve_signer_binding`
unfoldable pub bundle_signer_binding :
    TrustGrantProofBundle
    → AuthorityId
    → KeyId
    → Option ValidatedPrincipal
    → Result TrustGrantError ResolvedSignerBinding
unfolding Assoc.get same_authority eq_list resolve_root_signer_binding find_delegated
    resolve_delegated_signer_binding
bundle_signer_binding bundle issuer_authority key_id none = do
  discovery ←
      ok_or (Assoc.get issuer_authority bundle.discovery_documents)
        missing_authority_discovery_document
  resolve_root_signer_binding discovery issuer_authority key_id
bundle_signer_binding bundle issuer_authority key_id (some principal) = do
  discovery ←
      ok_or (Assoc.get issuer_authority bundle.discovery_documents)
        missing_authority_discovery_document
  guard (is_some discovery.delegation) delegation_not_supported
  delegated ←
      ok_or (find_delegated issuer_authority principal.kind principal.id bundle.delegated_documents)
        missing_delegated_principal_document
  resolve_delegated_signer_binding delegated issuer_authority principal key_id
      discovery.signature_profile

-- `resolve_ownership_transition_chain`
unfoldable pub bundle_transition_chain :
    TrustGrantProofBundle
    → ValidatedTrustGrantDocument
    → Result TrustGrantError (List RawOwnershipTransitionDocument)
unfolding Assoc.get ensure_collection_limit
bundle_transition_chain bundle document = do
  let found = Assoc.get document.lineage.trustgrant_id bundle.ownership_transition_chains
  let chain = unwrap_or_default found
  ensure_collection_limit "ownership_transition.chain" (length chain) max_ownership_chain_length
  ok chain

module _ (add_seconds : Instant → ℕ → Option Instant) where
  -- `resolve_revocation_record`
  unfoldable pub bundle_revocation_record :
      TrustGrantProofBundle → ValidatedTrustGrantDocument → Result TrustGrantError RevocationRecord
  unfolding Assoc.get to_record_for
  bundle_revocation_record bundle document = do
    proof ←
        ok_or (Assoc.get document.lineage.trustgrant_id bundle.revocation_proofs)
          missing_revocation_proof
    to_record_for add_seconds proof document.lineage.trustgrant_id

  unfoldable pub as_sources : TrustGrantProofBundle → VerificationSources
  unfolding bundle_signer_binding bundle_revocation_record bundle_transition_chain
  as_sources bundle = record {
    discovery_source = record {
      resolve_signer_binding =
          λ issuer key_id principal context. bundle_signer_binding bundle issuer key_id principal;
    };
    revocation_source = record {
      resolve_revocation_record =
          λ document binding context. bundle_revocation_record bundle document;
    };
    ownership_source = record {
      resolve_ownership_transition_chain =
          λ document context. bundle_transition_chain bundle document;
    };
  }
