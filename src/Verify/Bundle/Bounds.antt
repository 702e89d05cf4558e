-- ===== src/Verify/Bundle/Bounds.antt =====
-- bundle.rs: a bundle stays within its limits.
use trustgrant.Prelude.{
  ℕ, String, suc, ◌+◌, ◌≤◌, ◌>>◌, none, List, [], ◌∷◌, ◌≡◌, inl, inr, refl, sym, ap, ◌∙◌, arith, ok,
  ok_iff, check_iff, Eq, ◌==◌, nat_eq, list_eq, Bool-cases, length, All, unwrap_or_default,
}
use trustgrant.Prelude.Assoc
use trustgrant.Errors.Kinds.{TrustGrantError}
use trustgrant.Errors.Limits.{
  ensure_collection_limit, max_bundle_discovery_documents, max_bundle_delegated_principal_documents,
  max_bundle_revocation_proofs, max_bundle_ownership_transition_chains, max_ownership_chain_length,
}
use trustgrant.Domain.Names.{PrincipalKind, PrincipalId, principal_kind_eq, principal_id_eq}
use trustgrant.Domain.Authority.{AuthorityId, authority_id_eq}
use trustgrant.Domain.Ids.{TrustGrantId}
use trustgrant.Document.Transition.Raw.{RawOwnershipTransitionDocument}
use trustgrant.Discovery.Source.{DelegatedPrincipalKeyDocument}
use trustgrant.Discovery.Equality.{
  authority_discovery_document_eq, delegated_principal_key_document_eq,
}
use trustgrant.Document.Transition.Equality.{raw_transition_eq}
use trustgrant.Ownership.Verdict.{limit_iff}
use trustgrant.Verify.Bundle.Proof.{bundle_revocation_proof_eq}
use trustgrant.Verify.Bundle.Store.{
  DelegatedDocuments, TrustGrantProofBundle, find_delegated, put_delegated, count_of_kinds,
  delegated_document_count, insert_discovery_document, insert_delegated_principal_document,
  insert_revocation_proof, insert_ownership_transition_chain,
}
use trustgrant.Verify.Bundle.Laws.{
  Insertion, discovery_document, delegated_document, revocation_proof, transition_chain,
  apply_insertion, settle_lem, find_lem,
}

length-insert :
    {K V : Type 0} ⦃e : Eq K⦄ (key : K) (value : V) (m : List (K × V))
    → Assoc.get key m ≡ none
    → length (Assoc.insert key value m) ≡ suc (length m)
unfolding Assoc.get Assoc.insert
length-insert key value [] h = refl
length-insert key value ((other, old) ∷ m) h = elim (Bool-cases (other == key)) [
  | inl t ↦ cc (rw t at h)
  | inr f ↦ rw f (ap suc (length-insert key value m (rw f at h)))
]

-- What a new value at a key adds to a count, and what the old one took from it.
count_of_kinds-insert :
    (k : PrincipalKind) (ids : List (PrincipalId × DelegatedPrincipalKeyDocument))
    (kinds : List (PrincipalKind × List (PrincipalId × DelegatedPrincipalKeyDocument)))
    → count_of_kinds (Assoc.insert k ids kinds) + length (unwrap_or_default (Assoc.get k kinds))
      ≡ count_of_kinds kinds + length ids
unfolding count_of_kinds Assoc.get Assoc.insert
count_of_kinds-insert k ids [] = omega arith
count_of_kinds-insert k ids ((other, old) ∷ kinds) = elim (Bool-cases (other == k)) [
  | inl t ↦ rw t (omega arith)
  | inr f ↦ rw f (let e = count_of_kinds-insert k ids kinds in omega (arith, e))
]

count-insert :
    (a : AuthorityId)
    (kinds : List (PrincipalKind × List (PrincipalId × DelegatedPrincipalKeyDocument)))
    (m : DelegatedDocuments)
    → delegated_document_count (Assoc.insert a kinds m)
        + count_of_kinds (unwrap_or_default (Assoc.get a m))
      ≡ delegated_document_count m + count_of_kinds kinds
unfolding delegated_document_count count_of_kinds Assoc.get Assoc.insert
count-insert a kinds [] = omega arith
count-insert a kinds ((other, old) ∷ m) = elim (Bool-cases (other == a)) [
  | inl t ↦ rw t (omega arith)
  | inr f ↦ rw f (let e = count-insert a kinds m in omega (arith, e))
]

count-put :
    (a : AuthorityId) (k : PrincipalKind) (i : PrincipalId) (d : DelegatedPrincipalKeyDocument)
    (m : DelegatedDocuments)
    → find_delegated a k i m ≡ none
    → delegated_document_count (put_delegated a k i d m) ≡ suc (delegated_document_count m)
unfolding put_delegated
count-put a k i d m h =
    let kinds = unwrap_or_default (Assoc.get a m) in
    let ids = unwrap_or_default (Assoc.get k kinds) in
    let new_ids = Assoc.insert i d ids in
    let one = length-insert i d ids (sym (find_lem a k i m) ∙ h) in
    let two = count_of_kinds-insert k new_ids kinds in
    let three = count-insert a (Assoc.insert k new_ids kinds) m in omega (arith, one, two, three)

-- The numbers of entries, and the lengths of the chains.
pub record IsWithinLimits (b : TrustGrantProofBundle) : Type 0 where
  pub discovery : length b.discovery_documents ≤ 64
  pub delegated : delegated_document_count b.delegated_documents ≤ 128
  pub revocation : length b.revocation_proofs ≤ 64
  pub chains : length b.ownership_transition_chains ≤ 64
  pub short : All (λ entry. length entry.1 ≤ 32) b.ownership_transition_chains

insert-short :
    (key : TrustGrantId) (ts : List RawOwnershipTransitionDocument)
    (m : List (TrustGrantId × List RawOwnershipTransitionDocument))
    → length ts ≤ 32
    → All (λ (entry : TrustGrantId × List RawOwnershipTransitionDocument). length entry.1 ≤ 32) m
    → All
        (λ (entry : TrustGrantId × List RawOwnershipTransitionDocument). length entry.1 ≤ 32)
        (Assoc.insert key ts m)
unfolding Assoc.insert
insert-short key ts [] h w = (h, tt)
insert-short key ts ((other, old) ∷ m) h (here, later) = elim (Bool-cases (other == key)) [
  | inl t ↦ rw t (h, later)
  | inr f ↦ rw f (here, insert-short key ts m h later)
]

module _ (b after : TrustGrantProofBundle) (w : IsWithinLimits b) where
  -- What is left when the test of a limit has passed.
  limit_passed :
      (field : String) (n limit : ℕ) (made : TrustGrantProofBundle)
      → (ensure_collection_limit field n limit >> ok made) ≡ ok after
      → (n ≤ limit) × (after ≡ made)
  limit_passed field n limit made h =
      let (passed, done) =
        (check_iff (ensure_collection_limit field n limit) (ok made) after).0 h in
      ((limit_iff field n limit).0 passed, (ok_iff {E = TrustGrantError} made after).0 done)

  -- An insertion that succeeds keeps a bundle within its limits: 64 discovery documents, 128 delegated
  -- ones over all authorities, 64 proofs of revocation and 64 chains of at most 32 transitions.
  pub apply_insertion-IsWithinLimits :
      (op : Insertion) → apply_insertion op b ≡ ok after → IsWithinLimits after
  unfolding apply_insertion insert_discovery_document insert_delegated_principal_document
      insert_revocation_proof insert_ownership_transition_chain
  apply_insertion-IsWithinLimits (discovery_document d) h =
      elim (settle_lem (Assoc.get d.authority_id b.discovery_documents) d "discovery_document" _ b
        after h) [
          | inl (_, same) ↦ rw same w
          | inr (missing, adding) ↦
              let (fits, made) =
                limit_passed "proof_bundle.discovery_documents" (length b.discovery_documents + 1)
                  max_bundle_discovery_documents _ adding in
              let e = length-insert d.authority_id d b.discovery_documents missing in
              rw made (record {
                discovery = omega (arith, e, fits);
                delegated = w.delegated;
                revocation = w.revocation;
                chains = w.chains;
                short = w.short;
              })
        ]
  apply_insertion-IsWithinLimits (delegated_document d) h =
      elim (settle_lem
        (find_delegated d.authority_id d.principal.kind d.principal.id b.delegated_documents) d
        "delegated_principal_document" _ b after h) [
          | inl (_, same) ↦ rw same w
          | inr (missing, adding) ↦
              let (fits, made) =
                limit_passed "proof_bundle.delegated_principal_documents"
                  (delegated_document_count b.delegated_documents + 1)
                  max_bundle_delegated_principal_documents _ adding in
              let e =
                count-put d.authority_id d.principal.kind d.principal.id d b.delegated_documents
                  missing in
              rw made (record {
                discovery = w.discovery;
                delegated = omega (arith, e, fits);
                revocation = w.revocation;
                chains = w.chains;
                short = w.short;
              })
        ]
  apply_insertion-IsWithinLimits (revocation_proof p) h =
      elim (settle_lem (Assoc.get p.proof.trustgrant_id b.revocation_proofs) p "revocation_proof" _
        b after h) [
          | inl (_, same) ↦ rw same w
          | inr (missing, adding) ↦
              let (fits, made) =
                limit_passed "proof_bundle.revocation_proofs" (length b.revocation_proofs + 1)
                  max_bundle_revocation_proofs _ adding in
              let e = length-insert p.proof.trustgrant_id p b.revocation_proofs missing in
              rw made (record {
                discovery = w.discovery;
                delegated = w.delegated;
                revocation = omega (arith, e, fits);
                chains = w.chains;
                short = w.short;
              })
        ]
  apply_insertion-IsWithinLimits (transition_chain key ts) h =
      let (passed, h₁) =
        (check_iff
            (ensure_collection_limit "ownership_transition.chain" (length ts)
              max_ownership_chain_length)
            _ after).0
          h in
      let brief =
        (limit_iff "ownership_transition.chain" (length ts) max_ownership_chain_length).0 passed in
      elim (settle_lem (Assoc.get key b.ownership_transition_chains) ts "ownership_transition_chain"
        _ b after h₁) [
          | inl (_, same) ↦ rw same w
          | inr (missing, adding) ↦
              let (fits, made) =
                limit_passed "proof_bundle.ownership_transition_chains"
                  (length b.ownership_transition_chains + 1) max_bundle_ownership_transition_chains
                  _ adding in
              let e = length-insert key ts b.ownership_transition_chains missing in
              rw made (record {
                discovery = w.discovery;
                delegated = w.delegated;
                revocation = w.revocation;
                chains = omega (arith, e, fits);
                short = insert-short key ts b.ownership_transition_chains brief w.short;
              })
        ]
