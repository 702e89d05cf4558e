-- ===== src/Verify/Bundle/Laws.antt =====
-- bundle.rs: a bundle is, to those who look entries up, four functions that insertions extend.
use trustgrant.Prelude.{
  String, ◌&&◌, Option, none, some, List, ◌≡◌, ◌⊎◌, inl, inr, refl, sym, ap, ◌∙◌, Result, ok,
  ok_iff, Eq, ◌==◌, nat_eq, list_eq, if◌then◌else◌, Bool-cases, unwrap_or_default,
}
use trustgrant.Prelude.Assoc
use trustgrant.Prelude.Assoc.{get-insert, get-insert_self}
use trustgrant.Errors.Kinds.{TrustGrantError}
use trustgrant.Domain.Ids.{TrustGrantId}
use trustgrant.Domain.Names.{PrincipalKind, PrincipalId, principal_kind_eq, principal_id_eq}
use trustgrant.Domain.Authority.{AuthorityId, authority_id_eq}
use trustgrant.Discovery.Source.{AuthorityDiscoveryDocument, DelegatedPrincipalKeyDocument}
use trustgrant.Discovery.Equality.{
  authority_discovery_document_eq, delegated_principal_key_document_eq,
}
use trustgrant.Document.Transition.Raw.{RawOwnershipTransitionDocument}
use trustgrant.Document.Transition.Equality.{raw_transition_eq}
use trustgrant.Verify.Bundle.Proof.{BundleRevocationProof, bundle_revocation_proof_eq}
use trustgrant.Verify.Bundle.Store.{
  DelegatedDocuments, TrustGrantProofBundle, settle_entry, find_delegated, put_delegated,
  insert_discovery_document, insert_delegated_principal_document, insert_revocation_proof,
  insert_ownership_transition_chain,
}

-- The four kinds of insertion.
pub data Insertion : Type 0 where
  discovery_document : AuthorityDiscoveryDocument → Insertion
  delegated_document : DelegatedPrincipalKeyDocument → Insertion
  revocation_proof : BundleRevocationProof → Insertion
  transition_chain : TrustGrantId → List RawOwnershipTransitionDocument → Insertion

unfoldable pub apply_insertion :
    Insertion → TrustGrantProofBundle → Result TrustGrantError TrustGrantProofBundle
unfolding insert_discovery_document insert_delegated_principal_document insert_revocation_proof
    insert_ownership_transition_chain
apply_insertion (discovery_document d) bundle = insert_discovery_document d bundle
apply_insertion (delegated_document d) bundle = insert_delegated_principal_document d bundle
apply_insertion (revocation_proof p) bundle = insert_revocation_proof p bundle
apply_insertion (transition_chain id chain) bundle =
    insert_ownership_transition_chain id chain bundle

-- What can be looked up.
pub record View : Type 0 where
  pub discovery : AuthorityId → Option AuthorityDiscoveryDocument
  pub delegated : AuthorityId → PrincipalKind → PrincipalId → Option DelegatedPrincipalKeyDocument
  pub revocation : TrustGrantId → Option BundleRevocationProof
  pub chain : TrustGrantId → Option (List RawOwnershipTransitionDocument)

unfoldable pub view : TrustGrantProofBundle → View
unfolding Assoc.get find_delegated
view bundle = record {
  discovery = λ authority. Assoc.get authority bundle.discovery_documents;
  delegated = λ authority kind id. find_delegated authority kind id bundle.delegated_documents;
  revocation = λ id. Assoc.get id bundle.revocation_proofs;
  chain = λ id. Assoc.get id bundle.ownership_transition_chains;
}

-- The specification: one function gets one more value.
abbrev pub updated : Insertion → View → View
updated (discovery_document d) v = record {
  discovery = λ a. if d.authority_id == a then some d else v.discovery a;
  delegated = v.delegated;
  revocation = v.revocation;
  chain = v.chain;
}
updated (delegated_document d) v = record {
  discovery = v.discovery;
  delegated = λ a k i.
      if d.authority_id == a && (d.principal.kind == k && d.principal.id == i)
      then some d
      else v.delegated a k i;
  revocation = v.revocation;
  chain = v.chain;
}
updated (revocation_proof p) v = record {
  discovery = v.discovery;
  delegated = v.delegated;
  revocation = λ id. if p.proof.trustgrant_id == id then some p else v.revocation id;
  chain = v.chain;
}
updated (transition_chain key ts) v = record {
  discovery = v.discovery;
  delegated = v.delegated;
  revocation = v.revocation;
  chain = λ id. if key == id then some ts else v.chain id;
}

-- Two views that give the same for every look-up.
pub record SameView (v w : View) : Type 0 where
  pub discovery : (a : AuthorityId) → v.discovery a ≡ w.discovery a
  pub delegated :
      (a : AuthorityId) (k : PrincipalKind) (i : PrincipalId)
      → v.delegated a k i ≡ w.delegated a k i
  pub revocation : (id : TrustGrantId) → v.revocation id ≡ w.revocation id
  pub chain : (id : TrustGrantId) → v.chain id ≡ w.chain id

-- An insertion finds the entry there, or adds it.
pub settle_lem :
    {V B : Type 0} ⦃e : Eq V⦄ (found : Option V) (value : V) (name : String)
    (adding : Result TrustGrantError B) (same result : B)
    → settle_entry found value name adding same ≡ ok result
    → (found ≡ some value) × (result ≡ same) ⊎ (found ≡ none) × (adding ≡ ok result)
settle_lem none value name adding same result h = inr (refl, h)
settle_lem ⦃e⦄ (some existing) value name adding same result h =
    elim (Bool-cases (existing == value)) [
      | inl t ↦ inl (
        ap some ((e.beq_iff existing value).0 t),
        (ok_iff {E = TrustGrantError} same result).0 (rw t at h),
      )
      | inr f ↦ cc (rw f at h)
    ]

-- A look-up that gives the value already is not changed by the update.
pub kept :
    {K V : Type 0} ⦃e : Eq K⦄ (key other : K) (value : V) (look : K → Option V)
    → look key ≡ some value
    → look other ≡ (if key == other then some value else look other)
kept ⦃e⦄ key other value look h = elim (Bool-cases (key == other)) [
  | inl t ↦ rw t (ap look (sym ((e.beq_iff key other).0 t)) ∙ h)
  | inr f ↦ rw f refl
]

-- Look-ups in nested maps, where a map that is not there is empty.
inner_lem :
    (i : PrincipalId) (ids : Option (List (PrincipalId × DelegatedPrincipalKeyDocument)))
    → elim ids [ none ↦ none | some found ↦ Assoc.get i found ]
      ≡ Assoc.get i (unwrap_or_default ids)
unfolding Assoc.get
inner_lem i none = refl
inner_lem i (some found) = refl

outer_lem :
    (k : PrincipalKind) (i : PrincipalId)
    (kinds : Option (List (PrincipalKind × List (PrincipalId × DelegatedPrincipalKeyDocument))))
    → elim kinds [
      | none ↦ none
      | some found ↦ elim (Assoc.get k found) [ none ↦ none | some ids ↦ Assoc.get i ids ]
    ]
      ≡ Assoc.get i (unwrap_or_default (Assoc.get k (unwrap_or_default kinds)))
unfolding Assoc.get
outer_lem k i none = refl
outer_lem k i (some found) = inner_lem i (Assoc.get k found)

pub find_lem :
    (a : AuthorityId) (k : PrincipalKind) (i : PrincipalId) (m : DelegatedDocuments)
    → find_delegated a k i m
      ≡ Assoc.get i (unwrap_or_default (Assoc.get k (unwrap_or_default (Assoc.get a m))))
unfolding find_delegated
find_lem a k i m = outer_lem k i (Assoc.get a m)

unwrap-insert :
    {K V : Type 0} ⦃e : Eq K⦄ (key other : K) (value : List V) (m : List (K × List V))
    → unwrap_or_default (Assoc.get other (Assoc.insert key value m))
      ≡ (if key == other then value else unwrap_or_default (Assoc.get other m))
unwrap-insert key other value m = elim (Bool-cases (key == other)) [
  | inl t ↦ rw (get-insert key other value m, t) refl
  | inr f ↦ rw (get-insert key other value m, f) refl
]

pub find_delegated-put_delegated :
    (a b : AuthorityId) (k l : PrincipalKind) (i j : PrincipalId)
    (d : DelegatedPrincipalKeyDocument) (m : DelegatedDocuments)
    → find_delegated b l j (put_delegated a k i d m)
      ≡ (if a == b && (k == l && i == j) then some d else find_delegated b l j m)
unfolding put_delegated
find_delegated-put_delegated a b k l i j d m =
    let kinds = unwrap_or_default (Assoc.get a m) in
    let ids = unwrap_or_default (Assoc.get k kinds) in
    let new_ids = Assoc.insert i d ids in
    let new_kinds = Assoc.insert k new_ids kinds in
    find_lem b l j (Assoc.insert a new_kinds m) ∙ (elim (Bool-cases (a == b)) [
      | inr f ↦ rw (unwrap-insert a b new_kinds m, f) (sym (find_lem b l j m))
      | inl t ↦
          let p = (authority_id_eq.beq_iff a b).0 t in
          rw (unwrap-insert a b new_kinds m, t)
            (elim (Bool-cases (k == l)) [
              | inr f ↦ rw (unwrap-insert k l new_ids kinds, f, p) (sym (find_lem b l j m))
              | inl t' ↦
                  let q = (principal_kind_eq.beq_iff k l).0 t' in
                  rw (unwrap-insert k l new_ids kinds, t', get-insert i j d ids)
                    (rw (find_lem b l j m, sym p, sym q) refl)
            ])
    ])
