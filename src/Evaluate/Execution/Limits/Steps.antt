-- ===== src/Evaluate/Execution/Limits/Steps.antt =====
-- execution.rs: each operation of the executor keeps the counters within a grant's limits.
use trustgrant.Prelude.{
  ℕ, ◌+◌, ◌≤◌, true, Option, none, some, ◌≡◌, refl, ap, sym, subst, ◌∙◌, inl, inr, arith,
  Bool-cases, ◌==◌, unwrap_or,
}
use trustgrant.Prelude.Assoc
use trustgrant.Domain.Names.{ResourceTypeName, resource_type_name_eq}
use trustgrant.Verify.Grant.{VerifiedTrustGrant}
use trustgrant.Document.Model.{ValidatedResourceType}
use trustgrant.Evaluate.Request.{MintContext, with_runtime_mint_context}
use trustgrant.Evaluate.Engine.{u64_max}
use trustgrant.Evaluate.Engine.Limits.{WithinTotal, WithinUser}
use trustgrant.Evaluate.Authorization.{Authorizes}
use trustgrant.Evaluate.Mutation.{MutationRequest, is_mint}
use trustgrant.Evaluate.Execution.{
  InMemoryExecutionState, MintTotalKey, MintPrincipalKey, mint_total_key_eq, mint_principal_key_eq,
  mint_total_key, mint_principal_key, total_of, principal_total_of,
}
use trustgrant.Evaluate.Execution.Counters.{IsMinted}
use trustgrant.Evaluate.Execution.Limits.{
  TotalWithin, PrincipalsWithin, KeepsLimits, total-minted, key_of, total-same,
}

-- Grants with one identifier have one resource scope.
abbrev pub Agrees : VerifiedTrustGrant → VerifiedTrustGrant → Type 0
Agrees g h =
    g.document.lineage.trustgrant_id ≡ h.document.lineage.trustgrant_id
    → g.document.resource_scope ≡ h.document.resource_scope

-- What the grant `h` allowed of a mint.
pub record IsPermitted (h : VerifiedTrustGrant) (request : MutationRequest)
    (s : InMemoryExecutionState) (c : MintContext) : Type 0 where
  pub resource_type : ValidatedResourceType
  pub granted :
      Assoc.get request.request.resource.resource_type h.document.resource_scope
      ≡ some resource_type
  pub total : WithinTotal resource_type.constraints.minting.max_total c
  pub user :
      WithinUser resource_type.constraints.minting.max_per_user
        request.request.audience_principal_context c
  pub current : c.current_total_mints ≡ total_of s (mint_total_key h request)
  pub current_user :
      c.current_mints_for_audience ≡ principal_total_of s (mint_principal_key h request)

pub permitted :
    (h : VerifiedTrustGrant) (request : MutationRequest) (s : InMemoryExecutionState)
    (c : MintContext)
    → is_mint request ≡ true
    → c.current_total_mints ≡ total_of s (mint_total_key h request)
    → c.current_mints_for_audience ≡ principal_total_of s (mint_principal_key h request)
    → Authorizes h (with_runtime_mint_context request.request c)
    → IsPermitted h request s c
permitted h request s c minting e₁ e₂ a = elim a.by_type.limits [
  | inl other ↦ cc
  | inr (total, user) ↦ record {
    resource_type = a.resource_type;
    granted = a.granted;
    total = total;
    user = user;
    current = e₁;
    current_user = e₂;
  }
]

user-minted :
    (limit : Option ℕ) (c : MintContext) (n : ℕ) (h : VerifiedTrustGrant)
    (request : MutationRequest)
    → WithinUser limit request.request.audience_principal_context c
    → c.current_mints_for_audience ≡ n
    → n + c.requested_quantity ≤ u64_max
    → (t : InMemoryExecutionState) (k : MintPrincipalKey)
    → principal_total_of t k ≡ n + c.requested_quantity
    → (l : ℕ) → limit ≡ some l
    → principal_total_of t k ≤ l
user-minted none c n h request w e fits t k at l p = cc
user-minted (some limit) c n h request (_, inl w) e fits t k at l p =
    let same : limit ≡ l = ap (unwrap_or 0) p in ground arith
user-minted (some limit) c n h request (_, inr w) e fits t k at l p =
    let same : limit ≡ l = ap (unwrap_or 0) p in ground arith

module _ (g h : VerifiedTrustGrant) (request : MutationRequest) (agrees : Agrees h g)
    (s t : InMemoryExecutionState) (c : MintContext) (p : IsPermitted h request s c)
    (minted : IsMinted
      (mint_total_key h request)
      (mint_principal_key h request)
      c.requested_quantity
      s
      t)
    (kept : KeepsLimits g s) where
  -- The resource type at a key that the mint moved is the one that the mint was allowed by.
  same-type :
      (name : ResourceTypeName) (rt : ValidatedResourceType)
      → Assoc.get name g.document.resource_scope ≡ some rt
      → mint_total_key h request ≡ key_of g name
      → p.resource_type ≡ rt
  unfolding mint_total_key
  same-type name rt found e =
      let scope : h.document.resource_scope ≡ g.document.resource_scope =
        agrees (ap (λ (k : MintTotalKey). k.grant_id) e) in
      let named : request.request.resource.resource_type ≡ name =
        ap (λ (k : MintTotalKey). k.resource_type) e in
      ap (unwrap_or rt) (
        sym p.granted
        ∙ ap (λ m. Assoc.get request.request.resource.resource_type m) scope
        ∙ ap (λ n. Assoc.get n g.document.resource_scope) named
        ∙ found)

  minted-totals :
      (name : ResourceTypeName) (rt : ValidatedResourceType)
      → Assoc.get name g.document.resource_scope ≡ some rt
      → TotalWithin t (key_of g name) rt.constraints.minting.max_total
  minted-totals name rt found = elim (Bool-cases (mint_total_key h request == key_of g name)) [
    | inl e ↦
        let keys = (mint_total_key_eq.beq_iff (mint_total_key h request) (key_of g name)).0 e in
        total-minted rt.constraints.minting.max_total c (total_of s (mint_total_key h request))
          (subst (λ (r : ValidatedResourceType). WithinTotal r.constraints.minting.max_total c)
            (same-type name rt found keys) p.total)
          p.current minted.fits t (key_of g name) (minted.totals (key_of g name) ∙ rw e refl)
    | inr e ↦
        total-same s t (key_of g name) rt.constraints.minting.max_total
          (sym (minted.totals (key_of g name) ∙ rw e refl)) (kept.totals name rt found)
  ]

  minted-principal :
      (name : ResourceTypeName) (rt : ValidatedResourceType) (k : MintPrincipalKey) (limit : ℕ)
      → Assoc.get name g.document.resource_scope ≡ some rt
      → rt.constraints.minting.max_per_user ≡ some limit
      → principal_total_of s k ≤ limit
      → k.total_key ≡ key_of g name
      → principal_total_of t k ≤ limit
  unfolding mint_principal_key
  minted-principal name rt k limit found e before at =
      elim (Bool-cases (mint_principal_key h request == k)) [
        | inl same ↦
            let keys = (mint_principal_key_eq.beq_iff (mint_principal_key h request) k).0 same in
            let total_keys : mint_total_key h request ≡ key_of g name =
              ap (λ (j : MintPrincipalKey). j.total_key) keys ∙ at in
            user-minted p.resource_type.constraints.minting.max_per_user c
              (principal_total_of s (mint_principal_key h request)) h request p.user p.current_user
              minted.fits_principal t k (minted.principals k ∙ rw same refl) limit
              (ap (λ (r : ValidatedResourceType). r.constraints.minting.max_per_user)
                  (same-type name rt found total_keys)
                ∙ e)
        | inr other ↦ subst (λ n. n ≤ limit) (sym (minted.principals k ∙ rw other refl)) before
      ]

  minted-principals :
      (name : ResourceTypeName) (rt : ValidatedResourceType)
      → Assoc.get name g.document.resource_scope ≡ some rt
      → (limit : Option ℕ) → rt.constraints.minting.max_per_user ≡ limit
      → PrincipalsWithin s (key_of g name) limit
      → PrincipalsWithin t (key_of g name) limit
  minted-principals name rt found none e before = tt
  minted-principals name rt found (some limit) e before =
      λ k at. minted-principal name rt k limit found e (before k at) at

  pub minted-KeepsLimits : KeepsLimits g t
  minted-KeepsLimits = record {
    totals = minted-totals;
    principals = λ name rt found.
        minted-principals name rt found rt.constraints.minting.max_per_user refl
          (kept.principals name rt found);
  }
