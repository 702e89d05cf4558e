-- ===== src/Verify/Bundle/Store.antt =====
-- bundle.rs: a bundle and the insertions into it. Counts are those of lists, far below the greatest
-- `usize`.
use trustgrant.Prelude.{
  ℕ, ◌+◌, String, Option, none, some, List, [], ◌∷◌, Result, ok, err, ◌>>◌, Eq, ◌==◌, list_eq,
  nat_eq, eq_list, eq_option, if◌then◌else◌, length, unwrap_or_default,
}
use trustgrant.Prelude.Assoc
use trustgrant.Errors.Kinds.{TrustGrantError, conflicting_proof_bundle_entry}
use trustgrant.Errors.Limits.{
  ensure_collection_limit, max_bundle_discovery_documents, max_bundle_delegated_principal_documents,
  max_bundle_revocation_proofs, max_bundle_ownership_transition_chains, max_ownership_chain_length,
}
use trustgrant.Domain.Ids.{TrustGrantId}
use trustgrant.Domain.Names.{PrincipalKind, PrincipalId, principal_kind_eq, principal_id_eq}
use trustgrant.Domain.Authority.{AuthorityId, authority_id_eq, same_authority}
use trustgrant.Discovery.Source.{AuthorityDiscoveryDocument, DelegatedPrincipalKeyDocument}
use trustgrant.Discovery.Equality.{
  authority_discovery_document_eq, delegated_principal_key_document_eq,
}
use trustgrant.Document.Transition.Raw.{RawOwnershipTransitionDocument}
use trustgrant.Document.Transition.Equality.{raw_transition_eq}
use trustgrant.Verify.Bundle.Proof.{BundleRevocationProof, bundle_revocation_proof_eq}

abbrev pub DelegatedDocuments : Type 0
DelegatedDocuments =
    List (AuthorityId × List (PrincipalKind × List (PrincipalId × DelegatedPrincipalKeyDocument)))

pub record TrustGrantProofBundle : Type 0 where
  pub discovery_documents : List (AuthorityId × AuthorityDiscoveryDocument)
  pub delegated_documents : DelegatedDocuments
  pub revocation_proofs : List (TrustGrantId × BundleRevocationProof)
  pub ownership_transition_chains : List (TrustGrantId × List RawOwnershipTransitionDocument)

abbrev pub new_bundle : TrustGrantProofBundle
new_bundle = record {
  discovery_documents = [];
  delegated_documents = [];
  revocation_proofs = [];
  ownership_transition_chains = [];
}

-- What each insertion does with the entry that is there, or without one.
abbrev pub settle_entry :
    {V B : Type 0} ⦃e : Eq V⦄
    → Option V
    → V
    → String
    → Result TrustGrantError B
    → B
    → Result TrustGrantError B
settle_entry none value name adding same = adding
settle_entry (some existing) value name adding same =
    if existing == value then ok same else err (conflicting_proof_bundle_entry name)

unfoldable pub insert_discovery_document :
    AuthorityDiscoveryDocument
    → TrustGrantProofBundle
    → Result TrustGrantError TrustGrantProofBundle
unfolding Assoc.get Assoc.insert same_authority eq_list eq_option ensure_collection_limit
insert_discovery_document document bundle =
    settle_entry (Assoc.get document.authority_id bundle.discovery_documents) document
      "discovery_document"
      (do
        ensure_collection_limit "proof_bundle.discovery_documents"
            (length bundle.discovery_documents + 1) max_bundle_discovery_documents
        ok (record {
          discovery_documents =
              Assoc.insert document.authority_id document bundle.discovery_documents;
          delegated_documents = bundle.delegated_documents;
          revocation_proofs = bundle.revocation_proofs;
          ownership_transition_chains = bundle.ownership_transition_chains;
        }))
      bundle

-- `get(authority).and_then(|kinds| kinds.get(kind)).and_then(|ids| ids.get(id))`
unfoldable pub find_delegated :
    AuthorityId
    → PrincipalKind
    → PrincipalId
    → DelegatedDocuments
    → Option DelegatedPrincipalKeyDocument
unfolding Assoc.get same_authority eq_list
find_delegated authority kind id documents = elim (Assoc.get authority documents) [
  | none ↦ none
  | some kinds ↦ elim (Assoc.get kind kinds) [ none ↦ none | some ids ↦ Assoc.get id ids ]
]

-- `entry(authority).or_default().entry(kind).or_default().insert(id, document)`
unfoldable pub put_delegated :
    AuthorityId
    → PrincipalKind
    → PrincipalId
    → DelegatedPrincipalKeyDocument
    → DelegatedDocuments
    → DelegatedDocuments
unfolding Assoc.get Assoc.insert same_authority eq_list
put_delegated authority kind id document documents =
    let kinds = unwrap_or_default (Assoc.get authority documents) in
    let ids = unwrap_or_default (Assoc.get kind kinds) in
    Assoc.insert authority (Assoc.insert kind (Assoc.insert id document ids) kinds) documents

unfoldable pub count_of_kinds :
    List (PrincipalKind × List (PrincipalId × DelegatedPrincipalKeyDocument)) → ℕ
count_of_kinds [] = 0
count_of_kinds ((kind, ids) ∷ kinds) = length ids + count_of_kinds kinds

unfoldable pub delegated_document_count : DelegatedDocuments → ℕ
unfolding count_of_kinds
delegated_document_count [] = 0
delegated_document_count ((authority, kinds) ∷ documents) =
    count_of_kinds kinds + delegated_document_count documents

unfoldable pub insert_delegated_principal_document :
    DelegatedPrincipalKeyDocument
    → TrustGrantProofBundle
    → Result TrustGrantError TrustGrantProofBundle
unfolding find_delegated put_delegated same_authority eq_list delegated_document_count
    ensure_collection_limit
insert_delegated_principal_document document bundle =
    settle_entry
      (find_delegated document.authority_id document.principal.kind document.principal.id
        bundle.delegated_documents)
      document "delegated_principal_document"
      (do
        ensure_collection_limit "proof_bundle.delegated_principal_documents"
            (delegated_document_count bundle.delegated_documents + 1)
            max_bundle_delegated_principal_documents
        ok (record {
          discovery_documents = bundle.discovery_documents;
          delegated_documents =
              put_delegated document.authority_id document.principal.kind document.principal.id
                document bundle.delegated_documents;
          revocation_proofs = bundle.revocation_proofs;
          ownership_transition_chains = bundle.ownership_transition_chains;
        }))
      bundle

unfoldable pub insert_revocation_proof :
    BundleRevocationProof → TrustGrantProofBundle → Result TrustGrantError TrustGrantProofBundle
unfolding Assoc.get Assoc.insert ensure_collection_limit
insert_revocation_proof proof bundle =
    settle_entry (Assoc.get proof.proof.trustgrant_id bundle.revocation_proofs) proof
      "revocation_proof"
      (do
        ensure_collection_limit "proof_bundle.revocation_proofs"
            (length bundle.revocation_proofs + 1) max_bundle_revocation_proofs
        ok (record {
          discovery_documents = bundle.discovery_documents;
          delegated_documents = bundle.delegated_documents;
          revocation_proofs = Assoc.insert proof.proof.trustgrant_id proof bundle.revocation_proofs;
          ownership_transition_chains = bundle.ownership_transition_chains;
        }))
      bundle

unfoldable pub insert_ownership_transition_chain :
    TrustGrantId
    → List RawOwnershipTransitionDocument
    → TrustGrantProofBundle
    → Result TrustGrantError TrustGrantProofBundle
unfolding Assoc.get Assoc.insert eq_list eq_option ensure_collection_limit
insert_ownership_transition_chain trustgrant_id chain bundle = do
  ensure_collection_limit "ownership_transition.chain" (length chain) max_ownership_chain_length
  settle_entry (Assoc.get trustgrant_id bundle.ownership_transition_chains) chain
      "ownership_transition_chain"
      (do
        ensure_collection_limit "proof_bundle.ownership_transition_chains"
            (length bundle.ownership_transition_chains + 1) max_bundle_ownership_transition_chains
        ok (record {
          discovery_documents = bundle.discovery_documents;
          delegated_documents = bundle.delegated_documents;
          revocation_proofs = bundle.revocation_proofs;
          ownership_transition_chains =
              Assoc.insert trustgrant_id chain bundle.ownership_transition_chains;
        }))
      bundle
