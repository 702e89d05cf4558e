-- ===== src/Verify/Bundle/Refinement.antt =====
-- bundle.rs: what an insertion does to what can be looked up.
use trustgrant.Prelude.{
  ◌+◌, ◌&&◌, some, List, ◌≡◌, inl, inr, refl, sym, ok, ok_iff, check_iff, ◌==◌, nat_eq, list_eq,
  if◌then◌else◌, Bool-cases, and-eq-true, length,
}
use trustgrant.Prelude.Assoc
use trustgrant.Prelude.Assoc.{get-insert}
use trustgrant.Errors.Kinds.{TrustGrantError}
use trustgrant.Errors.Limits.{
  ensure_collection_limit, max_bundle_discovery_documents, max_bundle_delegated_principal_documents,
  max_bundle_revocation_proofs, max_bundle_ownership_transition_chains, max_ownership_chain_length,
}
use trustgrant.Domain.Ids.{TrustGrantId}
use trustgrant.Domain.Names.{PrincipalKind, PrincipalId, principal_kind_eq, principal_id_eq}
use trustgrant.Domain.Authority.{AuthorityId, authority_id_eq}
use trustgrant.Discovery.Source.{AuthorityDiscoveryDocument, DelegatedPrincipalKeyDocument}
use trustgrant.Discovery.Equality.{
  authority_discovery_document_eq, delegated_principal_key_document_eq,
}
use trustgrant.Document.Transition.Raw.{RawOwnershipTransitionDocument}
use trustgrant.Document.Transition.Equality.{raw_transition_eq}
use trustgrant.Verify.Bundle.Proof.{BundleRevocationProof, bundle_revocation_proof_eq}
use trustgrant.Verify.Bundle.Store.{
  TrustGrantProofBundle, find_delegated, delegated_document_count, insert_discovery_document,
  insert_delegated_principal_document, insert_revocation_proof, insert_ownership_transition_chain,
}
use trustgrant.Verify.Bundle.Laws.{
  Insertion, discovery_document, delegated_document, revocation_proof, transition_chain,
  apply_insertion, view, updated, SameView, settle_lem, kept, find_delegated-put_delegated,
}

module _ (b : TrustGrantProofBundle) (after : TrustGrantProofBundle) where
  discovery_lem :
      (d : AuthorityDiscoveryDocument)
      → insert_discovery_document d b ≡ ok after
      → SameView (view after) (updated (discovery_document d) (view b))
  unfolding insert_discovery_document view
  discovery_lem d h =
      elim (settle_lem (Assoc.get d.authority_id b.discovery_documents) d "discovery_document" _ b
        after h) [
          | inl (found, same) ↦ rw same (record {
            discovery = λ a. kept d.authority_id a d (λ x. Assoc.get x b.discovery_documents) found;
            delegated = λ a k i. refl;
            revocation = λ id. refl;
            chain = λ id. refl;
          })
          | inr (missing, adding) ↦
              let (_, made) =
                (check_iff
                    (ensure_collection_limit "proof_bundle.discovery_documents"
                      (length b.discovery_documents + 1) max_bundle_discovery_documents)
                    _ after).0
                  adding in
              rw ((ok_iff {E = TrustGrantError} _ after).0 made) (record {
                discovery = λ a. get-insert d.authority_id a d b.discovery_documents;
                delegated = λ a k i. refl;
                revocation = λ id. refl;
                chain = λ id. refl;
              })
        ]

  revocation_lem :
      (p : BundleRevocationProof)
      → insert_revocation_proof p b ≡ ok after
      → SameView (view after) (updated (revocation_proof p) (view b))
  unfolding insert_revocation_proof view
  revocation_lem p h =
      elim (settle_lem (Assoc.get p.proof.trustgrant_id b.revocation_proofs) p "revocation_proof" _
        b after h) [
          | inl (found, same) ↦ rw same (record {
            discovery = λ a. refl;
            delegated = λ a k i. refl;
            revocation =
                λ id. kept p.proof.trustgrant_id id p (λ x. Assoc.get x b.revocation_proofs) found;
            chain = λ id. refl;
          })
          | inr (missing, adding) ↦
              let (_, made) =
                (check_iff
                    (ensure_collection_limit "proof_bundle.revocation_proofs"
                      (length b.revocation_proofs + 1) max_bundle_revocation_proofs)
                    _ after).0
                  adding in
              rw ((ok_iff {E = TrustGrantError} _ after).0 made) (record {
                discovery = λ a. refl;
                delegated = λ a k i. refl;
                revocation = λ id. get-insert p.proof.trustgrant_id id p b.revocation_proofs;
                chain = λ id. refl;
              })
        ]

  chain_lem :
      (key : TrustGrantId) (ts : List RawOwnershipTransitionDocument)
      → insert_ownership_transition_chain key ts b ≡ ok after
      → SameView (view after) (updated (transition_chain key ts) (view b))
  unfolding insert_ownership_transition_chain view
  chain_lem key ts h =
      let (_, h₁) =
        (check_iff
            (ensure_collection_limit "ownership_transition.chain" (length ts)
              max_ownership_chain_length)
            _ after).0
          h in
      elim (settle_lem (Assoc.get key b.ownership_transition_chains) ts "ownership_transition_chain"
        _ b after h₁) [
          | inl (found, same) ↦ rw same (record {
            discovery = λ a. refl;
            delegated = λ a k i. refl;
            revocation = λ id. refl;
            chain = λ id. kept key id ts (λ x. Assoc.get x b.ownership_transition_chains) found;
          })
          | inr (missing, adding) ↦
              let (_, made) =
                (check_iff
                    (ensure_collection_limit "proof_bundle.ownership_transition_chains"
                      (length b.ownership_transition_chains + 1)
                      max_bundle_ownership_transition_chains)
                    _ after).0
                  adding in
              rw ((ok_iff {E = TrustGrantError} _ after).0 made) (record {
                discovery = λ a. refl;
                delegated = λ a k i. refl;
                revocation = λ id. refl;
                chain = λ id. get-insert key id ts b.ownership_transition_chains;
              })
        ]

  -- `kept` for the three keys of a delegated document.
  kept_delegated :
      (d : DelegatedPrincipalKeyDocument)
      → find_delegated d.authority_id d.principal.kind d.principal.id b.delegated_documents ≡ some d
      → (a : AuthorityId) (k : PrincipalKind) (i : PrincipalId)
      → find_delegated a k i b.delegated_documents ≡ (
          if d.authority_id == a && (d.principal.kind == k && d.principal.id == i)
          then some d
          else find_delegated a k i b.delegated_documents)
  kept_delegated d found a k i =
      elim (Bool-cases (d.authority_id == a && (d.principal.kind == k && d.principal.id == i))) [
        | inr f ↦ rw f refl
        | inl t ↦
            let (p, q) =
              (and-eq-true (d.authority_id == a) (d.principal.kind == k && d.principal.id == i)).0
                t in
            let (q', r) = (and-eq-true (d.principal.kind == k) (d.principal.id == i)).0 q in
            rw t (
              rw
                (
                  sym ((authority_id_eq.beq_iff d.authority_id a).0 p),
                  sym ((principal_kind_eq.beq_iff d.principal.kind k).0 q'),
                  sym ((principal_id_eq.beq_iff d.principal.id i).0 r),
                )
                found)
      ]

  delegated_lem :
      (d : DelegatedPrincipalKeyDocument)
      → insert_delegated_principal_document d b ≡ ok after
      → SameView (view after) (updated (delegated_document d) (view b))
  unfolding insert_delegated_principal_document view
  delegated_lem d h =
      elim (settle_lem
        (find_delegated d.authority_id d.principal.kind d.principal.id b.delegated_documents) d
        "delegated_principal_document" _ b after h) [
          | inl (found, same) ↦ rw same (record {
            discovery = λ a. refl;
            delegated = kept_delegated d found;
            revocation = λ id. refl;
            chain = λ id. refl;
          })
          | inr (missing, adding) ↦
              let (_, made) =
                (check_iff
                    (ensure_collection_limit "proof_bundle.delegated_principal_documents"
                      (delegated_document_count b.delegated_documents + 1)
                      max_bundle_delegated_principal_documents)
                    _ after).0
                  adding in
              rw ((ok_iff {E = TrustGrantError} _ after).0 made) (record {
                discovery = λ a. refl;
                delegated = λ a k i.
                    find_delegated-put_delegated d.authority_id a d.principal.kind k d.principal.id
                      i d b.delegated_documents;
                revocation = λ id. refl;
                chain = λ id. refl;
              })
        ]

-- An insertion into a bundle that succeeds does to what can be looked up what the specification says:
-- the entry is found under its key, and every other look-up gives what it gave.
pub apply_insertion-SameView :
    (op : Insertion) (b after : TrustGrantProofBundle)
    → apply_insertion op b ≡ ok after
    → SameView (view after) (updated op (view b))
unfolding apply_insertion
apply_insertion-SameView (discovery_document d) b after h = discovery_lem b after d h
apply_insertion-SameView (delegated_document d) b after h = delegated_lem b after d h
apply_insertion-SameView (revocation_proof p) b after h = revocation_lem b after p h
apply_insertion-SameView (transition_chain key ts) b after h = chain_lem b after key ts h
