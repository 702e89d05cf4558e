-- ===== src/Evaluate/Execution/Limits/Calls.antt =====
-- execution.rs: sequences of calls keep the counters within a grant's limits.
use trustgrant.Prelude.{
  ℕ, Option, none, some, ◌≡◌, refl, ap, sym, subst, ◌∙◌, inl, inr, arith, Bool-cases, Result, ok,
  err, >>=-eq-ok,
}
use trustgrant.Domain.Names.{resource_type_name_eq}
use trustgrant.Verify.Grant.{VerifiedTrustGrant}
use trustgrant.Evaluate.Request.{ResourceRef, EvaluationRequest}
use trustgrant.Evaluate.Authorization.{Authorizes, evaluate_iff}
use trustgrant.Evaluate.Mutation.{MutationRequest, MutationAuthorization, is_mint}
use trustgrant.Evaluate.Execution.{
  InMemoryExecutionError, InMemoryExecutionState, ResourceKey, resource_key, MintTotalKey,
  evaluation_request, log, mint_total_key, mint_principal_key, total_of, principal_total_of,
  quantity_of, register_resource, new_executor,
}
use trustgrant.Evaluate.Execution.Run.{
  AtomicExecutionResult, applied, denied, duplicate, stale, intent_conflict, returned, Apply,
  settle, commit, authorize_and_execute,
}
use trustgrant.Evaluate.Execution.Parts.{
  IsApplied, applied-parts, Unapplied, authorize_and_execute-Unapplied,
}
use trustgrant.Evaluate.Execution.Counters.{
  SameCounters, LeavesCounters, IsMinted, advance_mints-IsMinted, advance_version-SameCounters,
  total_of-same, principal_total_of-same, state_or,
}
use trustgrant.Evaluate.Execution.Limits.{
  TotalWithin, PrincipalsWithin, KeepsLimits, KeepsLimits-same, evaluation_request-mint, key_of,
}
use trustgrant.Evaluate.Execution.Limits.Steps.{Agrees, permitted, minted-KeepsLimits}

module _ {T : Type 0} (g h : VerifiedTrustGrant) (request : MutationRequest) (apply : Apply T)
    (agrees : Agrees h g) (leaves : LeavesCounters apply) (s : InMemoryExecutionState) where
  -- The counters move within the limits when the commition is a mint, and not at all otherwise.
  settle-KeepsLimits :
      (e : EvaluationRequest) (key : Option ResourceKey) (u v : InMemoryExecutionState)
      → evaluation_request s h request ≡ some e
      → Authorizes h e
      → SameCounters s u
      → settle h request apply e key u ≡ ok v
      → KeepsLimits g s
      → KeepsLimits g v
  unfolding settle
  settle-KeepsLimits e key u v evaluates authorized same settles kept =
      elim (Bool-cases (is_mint request)) [
        | inr other ↦
            KeepsLimits-same g u v (advance_version-SameCounters key u v (rw other at settles))
              (KeepsLimits-same g s u same kept)
        | inl minting ↦
            let (c, e_eq, total, user) = evaluation_request-mint s h request e minting evaluates in
            let p =
              permitted h request u c minting
                (total ∙ total_of-same s u (mint_total_key h request) same)
                (user ∙ principal_total_of-same s u (mint_principal_key h request) same)
                (subst (λ x. Authorizes h x) e_eq authorized) in
            let quantity : quantity_of e.mint_context ≡ c.requested_quantity =
              ap (λ (x : EvaluationRequest). quantity_of x.mint_context) e_eq in
            let minted =
              advance_mints-IsMinted (mint_total_key h request) (mint_principal_key h request)
                (quantity_of e.mint_context) u v (rw minting at settles) in
            minted-KeepsLimits g h request agrees u v c p
              (subst (λ q. IsMinted (mint_total_key h request) (mint_principal_key h request) q u v)
                quantity minted)
              (KeepsLimits-same g s u same kept)
      ]

  applied-KeepsLimits :
      (a : MutationAuthorization) (v : T) (t : InMemoryExecutionState)
      → IsApplied h request apply s a v t
      → KeepsLimits g s
      → KeepsLimits g t
  unfolding commit
  applied-KeepsLimits a v t parts kept =
      let ((w, u), applies, h₁) = >>=-eq-ok parts.called _ parts.committed in
      let (u', settles, h₂) = >>=-eq-ok (settle h request apply parts.evaluated parts.key u) _ h₁ in
      let (totals, users) = leaves (log a s) u a w (parts.applies ∙ ap some applies) in
      let after =
        settle-KeepsLimits parts.evaluated parts.key u u' parts.evaluates
          ((evaluate_iff h parts.evaluated).0 parts.allowed) (totals, users) settles kept in
      KeepsLimits-same g u' t
        (ap (λ x. (second u' x).total_mints) h₂, ap (λ x. (second u' x).mints_for_principal) h₂)
        after
    where
      second :
          InMemoryExecutionState
          → Result InMemoryExecutionError (T × InMemoryExecutionState)
          → InMemoryExecutionState
      second d (ok (x, y)) = y
      second d (err x) = d

  -- A call that returns keeps the counters within the limits of a grant `g`, also a call under
  -- another grant `h`, when grants with one identifier have one resource scope and the caller's
  -- `apply` leaves the counters alone.
  pub authorize_and_execute-KeepsLimits :
      (r : Result InMemoryExecutionError (AtomicExecutionResult T)) (t : InMemoryExecutionState)
      → authorize_and_execute h request apply s ≡ returned r t
      → KeepsLimits g s
      → KeepsLimits g t
  authorize_and_execute-KeepsLimits r t run kept =
      by_result r t run
        (subst (λ x. Unapplied s x) run (authorize_and_execute-Unapplied h request apply s))
    where
      unchanged : (t : InMemoryExecutionState) → t ≡ s → KeepsLimits g t
      unchanged t e = subst (λ x. KeepsLimits g x) (sym e) kept

      logged :
          (a : MutationAuthorization) (t : InMemoryExecutionState) → t ≡ log a s → KeepsLimits g t
      logged a t e =
          subst (λ x. KeepsLimits g x) (sym e) (KeepsLimits-same g s (log a s) (refl, refl) kept)

      by_result :
          (r : Result InMemoryExecutionError (AtomicExecutionResult T)) (t : InMemoryExecutionState)
          → authorize_and_execute h request apply s ≡ returned r t
          → Unapplied s (returned r t)
          → KeepsLimits g t
      by_result (err x) t run left = unchanged t left
      by_result (ok (applied a v)) t run left =
          applied-KeepsLimits a v t (applied-parts h request apply s t a v run) kept
      by_result (ok (denied a)) t run left = logged a t left
      by_result (ok (duplicate a)) t run left = unchanged t left
      by_result (ok (stale a n)) t run left = logged a t left
      by_result (ok (intent_conflict i)) t run left = unchanged t left

-- The states that an executor passes through, under grants of which `Known` holds.
pub data Reaches (T : Type 0) (Known : VerifiedTrustGrant → Type 0) (s : InMemoryExecutionState)
    : InMemoryExecutionState → Type 1 where
  start : Reaches T Known s s
  registered :
      (t u : InMemoryExecutionState) (resource : ResourceRef) (version : ℕ)
      → Reaches T Known s t
      → register_resource t resource version ≡ ok u
      → Reaches T Known s u
  called :
      (t u : InMemoryExecutionState) (h : VerifiedTrustGrant) (request : MutationRequest)
      (apply : Apply T) (r : Result InMemoryExecutionError (AtomicExecutionResult T))
      → Known h
      → LeavesCounters apply
      → Reaches T Known s t
      → authorize_and_execute h request apply t ≡ returned r u
      → Reaches T Known s u

register_resource-SameCounters :
    (s t : InMemoryExecutionState) (resource : ResourceRef) (version : ℕ)
    → register_resource s resource version ≡ ok t
    → SameCounters s t
unfolding register_resource
register_resource-SameCounters s t resource version h =
    let (key, e, h₁) = >>=-eq-ok (resource_key resource) _ h in
    (ap (λ x. (state_or s x).total_mints) h₁, ap (λ x. (state_or s x).mints_for_principal) h₁)

Reaches-KeepsLimits :
    {T : Type 0} {Known : VerifiedTrustGrant → Type 0} (g : VerifiedTrustGrant)
    (s t : InMemoryExecutionState)
    → ((h : VerifiedTrustGrant) → Known h → Agrees h g)
    → Reaches T Known s t
    → KeepsLimits g s
    → KeepsLimits g t
Reaches-KeepsLimits g s s' agrees start kept = kept
Reaches-KeepsLimits g s u agrees (registered t u' resource version before run) kept =
    KeepsLimits-same g t u (register_resource-SameCounters t u resource version run)
      (Reaches-KeepsLimits g s t agrees before kept)
Reaches-KeepsLimits g s u agrees (called t u' h request apply r known leaves before run) kept =
    authorize_and_execute-KeepsLimits g h request apply (agrees h known) leaves t r u run
      (Reaches-KeepsLimits g s t agrees before kept)

new-KeepsLimits : (g : VerifiedTrustGrant) → KeepsLimits g new_executor
unfolding total_of principal_total_of
new-KeepsLimits g = record {
  totals = λ name rt found. none_minted (key_of g name) rt.constraints.minting.max_total;
  principals = λ name rt found. no_principal (key_of g name) rt.constraints.minting.max_per_user;
}
  where
    none_minted : (k : MintTotalKey) (limit : Option ℕ) → TotalWithin new_executor k limit
    none_minted k none = tt
    none_minted k (some limit) = ground arith

    no_principal : (k : MintTotalKey) (limit : Option ℕ) → PrincipalsWithin new_executor k limit
    no_principal k none = tt
    no_principal k (some limit) = λ p at. ground arith

-- In every state that a new executor reaches by registrations and calls that return, under grants
-- that have one resource scope where they have one identifier, and with callers' functions that
-- leave the counters alone, the counters are within the limits of each of these grants.
pub new_executor-KeepsLimits :
    {T : Type 0} {Known : VerifiedTrustGrant → Type 0} (g : VerifiedTrustGrant)
    (t : InMemoryExecutionState)
    → ((h : VerifiedTrustGrant) → Known h → Agrees h g)
    → Reaches T Known new_executor t
    → KeepsLimits g t
new_executor-KeepsLimits g t agrees steps =
    Reaches-KeepsLimits g new_executor t agrees steps (new-KeepsLimits g)
