-- ===== src/Evaluate/Execution/Limits.antt =====
-- execution.rs: the limits of a grant hold of the executor's counters, whatever calls are made.
pub mod Steps
pub mod Calls
use trustgrant.Prelude.{
  ℕ, ◌+◌, ◌≤◌, Bool, true, false, Option, none, some, List, ◌≡◌, refl, ap, sym, subst, ◌∙◌, ◌⊎◌,
  inl, inr, arith, Bool-cases, Option-cases, Result, ok, err, ◌>>=◌, >>=-eq-ok, eqb, ltb, ◌==◌,
  beq_refl, if◌then◌else◌, unwrap_or,
}
use trustgrant.Prelude.Assoc
use trustgrant.Domain.Names.{ResourceTypeName, resource_type_name_eq}
use trustgrant.Verify.Grant.{VerifiedTrustGrant}
use trustgrant.Document.Model.{ValidatedResourceType}
use trustgrant.Evaluate.Request.{
  ResourceRef, EvaluationRequest, MintContext, with_quantity, with_runtime_mint_context,
  new_mint_context, is_mint_operation,
}
use trustgrant.Evaluate.Engine.{u64_max}
use trustgrant.Evaluate.Engine.Inner.{evaluate}
use trustgrant.Evaluate.Engine.Limits.{Within, WithinTotal, WithinUser, LimitsPermit}
use trustgrant.Evaluate.Authorization.{Authorizes, evaluate_iff}
use trustgrant.Evaluate.Mutation.{MutationRequest, MutationAuthorization, is_mint}
use trustgrant.Evaluate.Execution.{
  InMemoryExecutionError, InMemoryExecutionState, ResourceKey, MintTotalKey, MintPrincipalKey,
  mint_total_key_eq, mint_principal_key_eq, evaluation_request, log, mint_total_key,
  mint_principal_key, total_of, principal_total_of, quantity_of, register_resource, new_executor,
}
use trustgrant.Evaluate.Execution.Run.{
  AtomicExecutionResult, applied, denied, duplicate, stale, intent_conflict, Run, returned, Apply,
  settle, transact, authorize_and_execute,
}
use trustgrant.Evaluate.Execution.Parts.{
  IsApplied, applied-parts, Unapplied, authorize_and_execute-Unapplied,
}
use trustgrant.Evaluate.Execution.Counters.{
  SameCounters, LeavesCounters, IsMinted, advance_mints-IsMinted, advance_version-SameCounters,
  total_of-same, principal_total_of-same, state_or,
}

-- The limits of a resource type hold of the counters for it.
abbrev pub TotalWithin : InMemoryExecutionState → MintTotalKey → Option ℕ → Type 0
TotalWithin s key none = Unit
TotalWithin s key (some limit) = total_of s key ≤ limit

abbrev pub PrincipalsWithin : InMemoryExecutionState → MintTotalKey → Option ℕ → Type 0
PrincipalsWithin s key none = Unit
PrincipalsWithin s key (some limit) =
    (k : MintPrincipalKey) → k.total_key ≡ key → principal_total_of s k ≤ limit

abbrev pub key_of : VerifiedTrustGrant → ResourceTypeName → MintTotalKey
key_of g name = record { grant_id = g.document.lineage.trustgrant_id; resource_type = name }

-- The counters of a grant are within its limits.
pub record KeepsLimits (g : VerifiedTrustGrant) (s : InMemoryExecutionState) : Type 0 where
  pub totals :
      (name : ResourceTypeName) (rt : ValidatedResourceType)
      → Assoc.get name g.document.resource_scope ≡ some rt
      → TotalWithin s (key_of g name) rt.constraints.minting.max_total
  pub principals :
      (name : ResourceTypeName) (rt : ValidatedResourceType)
      → Assoc.get name g.document.resource_scope ≡ some rt
      → PrincipalsWithin s (key_of g name) rt.constraints.minting.max_per_user

pub total-same :
    (s t : InMemoryExecutionState) (k : MintTotalKey) (limit : Option ℕ)
    → total_of s k ≡ total_of t k
    → TotalWithin s k limit
    → TotalWithin t k limit
total-same s t k none e h = tt
total-same s t k (some limit) e h = subst (λ n. n ≤ limit) e h

pub principals-same :
    (s t : InMemoryExecutionState) (k : MintTotalKey) (limit : Option ℕ)
    → ((p : MintPrincipalKey) → p.total_key ≡ k → principal_total_of s p ≡ principal_total_of t p)
    → PrincipalsWithin s k limit
    → PrincipalsWithin t k limit
principals-same s t k none e h = tt
principals-same s t k (some limit) e h = λ p at. subst (λ n. n ≤ limit) (e p at) (h p at)

pub KeepsLimits-same :
    (g : VerifiedTrustGrant) (s t : InMemoryExecutionState)
    → SameCounters s t
    → KeepsLimits g s
    → KeepsLimits g t
KeepsLimits-same g s t same h = record {
  totals = λ name rt found.
      total-same s t (key_of g name) rt.constraints.minting.max_total
        (total_of-same s t (key_of g name) same) (h.totals name rt found);
  principals = λ name rt found.
      principals-same s t (key_of g name) rt.constraints.minting.max_per_user
        (λ p _. principal_total_of-same s t p same) (h.principals name rt found);
}

-- What the executor asks the grant about a mint: the counters it holds itself.
pub evaluation_request-mint :
    (s : InMemoryExecutionState) (g : VerifiedTrustGrant) (request : MutationRequest)
    (e : EvaluationRequest)
    → is_mint request ≡ true
    → evaluation_request s g request ≡ some e
    → (c : MintContext) × (e ≡ with_runtime_mint_context request.request c)
      × (c.current_total_mints ≡ total_of s (mint_total_key g request))
      × (c.current_mints_for_audience ≡ principal_total_of s (mint_principal_key g request))
unfolding evaluation_request with_quantity
evaluation_request-mint s g request e minting h =
    elim (Bool-cases (eqb (quantity_of request.request.mint_context) 0)) [
      | inl z ↦ cc (rw (minting, z) at h)
      | inr z ↦ (
        record (new_mint_context (total_of s (mint_total_key g request))
            (principal_total_of s (mint_principal_key g request))) {
              requested_quantity = quantity_of request.request.mint_context;
            },
        sym (ap (unwrap_or e) (rw (minting, z) at h)),
        refl,
        refl,
      )
    ]

-- After a mint that the limit permits, the counter is within it.
total-minted :
    (limit : Option ℕ) (c : MintContext) (n : ℕ)
    → WithinTotal limit c
    → c.current_total_mints ≡ n
    → n + c.requested_quantity ≤ u64_max
    → (t : InMemoryExecutionState) (k : MintTotalKey) → total_of t k ≡ n + c.requested_quantity
    → TotalWithin t k limit
total-minted none c n w e fits t k h = tt
total-minted (some limit) c n (inl w) e fits t k h = ground arith
total-minted (some limit) c n (inr w) e fits t k h = ground arith
