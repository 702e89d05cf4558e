-- ===== src/Evaluate/Authorization.antt =====
-- engine.rs, `evaluate`: a request is allowed exactly when the grant authorizes it.
use trustgrant.Prelude.{
  ◌≤◌, Bool, true, false, ◌&&◌, not, Option, none, some, ◌≡◌, refl, ◌↔◌, ◌⊎◌, inl, inr, arith,
  Result-cases, ok, ◌>>=◌, guard, ok_or, then_iff, guard_iff, ◌==◌, unwrap_or, ap,
}
use trustgrant.Prelude.Assoc
use trustgrant.Domain.Names.{resource_type_name_eq}
use trustgrant.Domain.Authority.{same_authority_iff, authority_id_eq}
use trustgrant.Domain.Ownership.{Instant}
use trustgrant.Revocation.{VerifiedRevocationState, non_revocable, checked, is_fresh_at, active}
use trustgrant.Document.Model.{
  ValidatedCapabilities, ValidatedResourceType, ValidatedTimeWindow, ValidatedRevocation,
  block_minting_only,
}
use trustgrant.Verify.Grant.{NormalizedTrustGrantDocument, VerifiedTrustGrant}
use trustgrant.Evaluate.Request.{
  EvaluationRequest, RequestedOperation, capability, custom, recognize, mint, origin_authority,
  is_mint_operation,
}
use trustgrant.Evaluate.Decision.{
  EvaluationDenyReason, is_allowed, resource_type_not_granted, capability_disabled,
}
use trustgrant.Evaluate.Engine.{
  is_capability_enabled, evaluate_scope_with_reasons, evaluate_scope, is_operation_allowed,
  evaluate_audience, evaluate_minting_constraints,
}
use trustgrant.Evaluate.Engine.Inner.{
  audience_scope_for, evaluate_resource_type, check_revocation, check_time_window, evaluate_checks,
  evaluate_inner, evaluate,
}
use trustgrant.Evaluate.Engine.Scopes.{
  Permits, AudiencePermits, evaluate_scope_iff, evaluate_audience_iff,
}
use trustgrant.Evaluate.Engine.Limits.{
  OperationPermits, MintPermits, is_operation_allowed_iff, evaluate_minting_constraints_iff,
}

-- A revocation that blocks only minting spares the other operations.
abbrev pub Spares : Option ValidatedRevocation → RequestedOperation → Type 0
Spares none op = ⊥
Spares (some rev) op =
    (rev.post_revocation_effect ≡ block_minting_only) × (is_mint_operation op ≡ false)

-- The revocation is known to be fresh, and does not stop the operation.
abbrev pub NotStopped :
    VerifiedRevocationState → Option ValidatedRevocation → EvaluationRequest → Type 0
NotStopped non_revocable rev r = Unit
NotStopped (checked c) rev r =
    (r.evaluated_at ≤ c.fresh_until) × ((c.status ≡ active) ⊎ Spares rev r.operation)

abbrev pub InWindow : Option ValidatedTimeWindow → Instant → Type 0
InWindow none at = Unit
InWindow (some w) at = (w.not_before ≤ at) × (at ≤ w.not_after)

-- The resource type's own setting, or else the grant's.
abbrev pub Setting : Option Bool → Bool → Type 0
Setting own default = (own ≡ some true) ⊎ ((own ≡ none) × (default ≡ true))

abbrev pub Enabled : ValidatedCapabilities → ValidatedResourceType → RequestedOperation → Type 0
Enabled caps rt (capability recognize) = Setting rt.capabilities.recognize caps.recognize
Enabled caps rt (capability mint) = Setting rt.capabilities.mint caps.mint
Enabled caps rt (custom name) = Unit

pub record TypeAuthorizes (d : NormalizedTrustGrantDocument) (rt : ValidatedResourceType)
    (r : EvaluationRequest) : Type 0 where
  pub enabled : Enabled d.capabilities rt r.operation
  pub resource : Permits rt.all rt.allow rt.deny r.resource.selectors
  pub operation : OperationPermits rt.operations r.operation
  pub audience : AudiencePermits (audience_scope_for d rt) r
  pub limits : MintPermits rt.constraints.minting r

-- All that a grant asks of a request.
pub record Authorizes (g : VerifiedTrustGrant) (r : EvaluationRequest) : Type 0 where
  pub verified : (is_mint_operation r.operation ≡ false) ⊎ (r.selectors_verified ≡ true)
  pub not_stopped : NotStopped g.metadata.revocation g.document.revocation r
  pub in_window : InWindow g.document.global_time_window r.evaluated_at
  pub origin : origin_authority r ≡ g.document.ownership_authority_state.origin_authority
  pub target :
      Permits g.document.target_scope.all g.document.target_scope.allow g.document.target_scope.deny
        r.target_context
  pub resource_type : ValidatedResourceType
  pub granted : Assoc.get r.resource.resource_type g.document.resource_scope ≡ some resource_type
  pub by_type : TypeAuthorizes g.document resource_type r

Setting-iff :
    (own : Option Bool) (default : Bool) → (unwrap_or default own ≡ true) ↔ Setting own default
Setting-iff none default = (λ h. inr (refl, h), elim [ inl h ↦ cc | inr h ↦ h.1 ])
Setting-iff (some b) default = (λ h. inl (ap some h), elim [ inl h ↦ cc | inr h ↦ cc ])

capability_iff :
    (caps : ValidatedCapabilities) (rt : ValidatedResourceType) (op : RequestedOperation)
    → (guard (is_capability_enabled caps rt op) capability_disabled ≡ ok tt) ↔ Enabled caps rt op
unfolding is_capability_enabled
capability_iff caps rt (capability recognize) =
    let (to, from) = Setting-iff rt.capabilities.recognize caps.recognize in
    let (out, back) =
      guard_iff (unwrap_or caps.recognize rt.capabilities.recognize) capability_disabled in
    (λ h. to (out h), λ e. back (from e))
capability_iff caps rt (capability mint) =
    let (to, from) = Setting-iff rt.capabilities.mint caps.mint in
    let (out, back) = guard_iff (unwrap_or caps.mint rt.capabilities.mint) capability_disabled in
    (λ h. to (out h), λ e. back (from e))
capability_iff caps rt (custom name) = (λ _. tt, λ _. refl)

revocation_iff :
    (state : VerifiedRevocationState) (rev : Option ValidatedRevocation) (r : EvaluationRequest)
    → (check_revocation state rev r ≡ ok tt) ↔ NotStopped state rev r
unfolding check_revocation is_fresh_at
revocation_iff non_revocable rev r = (λ _. tt, λ _. refl)
revocation_iff (checked c) rev r = (λ h. (ground arith, ground arith), λ h. ground arith)

window_iff :
    (w : Option ValidatedTimeWindow) (at : Instant)
    → (check_time_window w at ≡ ok tt) ↔ InWindow w at
unfolding check_time_window
window_iff none at = (λ _. tt, λ _. refl)
window_iff (some w) at = (λ h. (ground arith, ground arith), λ h. ground arith)

type_iff :
    (d : NormalizedTrustGrantDocument) (rt : ValidatedResourceType) (r : EvaluationRequest)
    → (evaluate_resource_type d rt r ≡ ok tt) ↔ TypeAuthorizes d rt r
unfolding evaluate_resource_type
type_iff d rt r =
    let (to₁, from₁) = then_iff (guard (is_capability_enabled d.capabilities rt r.operation) _) _ in
    let (to₂, from₂) =
      then_iff (evaluate_scope_with_reasons rt.all rt.allow rt.deny r.resource.selectors _ _) _ in
    let (to₃, from₃) = then_iff (is_operation_allowed rt.operations r.operation) _ in
    let (to₄, from₄) =
      then_iff (evaluate_audience (audience_scope_for d rt) r)
        (evaluate_minting_constraints rt.constraints.minting r) in
    let cap = capability_iff d.capabilities rt r.operation in
    let res = evaluate_scope_iff rt.all rt.allow rt.deny r.resource.selectors _ _ in
    let op = is_operation_allowed_iff rt.operations r.operation in
    let aud = evaluate_audience_iff (audience_scope_for d rt) r in
    let lim = evaluate_minting_constraints_iff rt.constraints.minting r in
    (
      λ h.
          let (a, h₁) = to₁ h in
          let (b, h₂) = to₂ h₁ in
          let (c, h₃) = to₃ h₂ in
          let (e, f) = to₄ h₃ in
          record {
            enabled = cap.0 a;
            resource = res.0 b;
            operation = op.0 c;
            audience = aud.0 e;
            limits = lim.0 f;
          },
      λ t. from₁ (
        cap.1 t.enabled,
        from₂
            (res.1 t.resource, from₃ (op.1 t.operation, from₄ (aud.1 t.audience, lim.1 t.limits))),
      ),
    )

-- From the look-up of the resource type on.
granted_iff :
    (d : NormalizedTrustGrantDocument) (found : Option ValidatedResourceType)
    (r : EvaluationRequest)
    → ((ok_or found resource_type_not_granted >>= λ rt. evaluate_resource_type d rt r) ≡ ok tt)
      ↔ ((rt : ValidatedResourceType) × (found ≡ some rt) × TypeAuthorizes d rt r)
granted_iff d none r = (λ h. cc, λ (rt, e, t). cc)
granted_iff d (some rt) r = (
  λ h. (rt, refl, (type_iff d rt r).0 h),
  λ (rt', e, t). (type_iff d rt r).1 (let same : rt' ≡ rt = cc in rw same at t),
)

verified_iff :
    (minting verified : Bool) (e : EvaluationDenyReason)
    → (guard (not (minting && not verified)) e ≡ ok tt) ↔ ((minting ≡ false) ⊎ (verified ≡ true))
verified_iff minting verified e = ground arith

checks_iff :
    (g : VerifiedTrustGrant) (r : EvaluationRequest)
    → (evaluate_checks g r ≡ ok tt) ↔ Authorizes g r
unfolding evaluate_checks evaluate_scope
checks_iff g r =
    let step₁ =
      then_iff (guard (not (is_mint_operation r.operation && not r.selectors_verified)) _) _ in
    let step₂ = then_iff (check_revocation g.metadata.revocation g.document.revocation r) _ in
    let step₃ = then_iff (check_time_window g.document.global_time_window r.evaluated_at) _ in
    let step₄ =
      then_iff
        (guard (origin_authority r == g.document.ownership_authority_state.origin_authority) _) _ in
    let step₅ = then_iff (evaluate_scope g.document.target_scope r.target_context) _ in
    let verified = verified_iff (is_mint_operation r.operation) r.selectors_verified _ in
    let revocation = revocation_iff g.metadata.revocation g.document.revocation r in
    let window = window_iff g.document.global_time_window r.evaluated_at in
    let origin_test =
      guard_iff (origin_authority r == g.document.ownership_authority_state.origin_authority) _ in
    let origin_eq =
      same_authority_iff (origin_authority r)
        g.document.ownership_authority_state.origin_authority in
    let scope =
      evaluate_scope_iff g.document.target_scope.all g.document.target_scope.allow
        g.document.target_scope.deny r.target_context _ _ in
    let granted =
      granted_iff g.document (Assoc.get r.resource.resource_type g.document.resource_scope) r in
    (
      λ h.
          let (a, h₁) = step₁.0 h in
          let (b, h₂) = step₂.0 h₁ in
          let (c, h₃) = step₃.0 h₂ in
          let (o, h₄) = step₄.0 h₃ in
          let (s, h₅) = step₅.0 h₄ in
          let (rt, e, t) = granted.0 h₅ in
          record {
            verified = verified.0 a;
            not_stopped = revocation.0 b;
            in_window = window.0 c;
            origin = origin_eq.0 (origin_test.0 o);
            target = scope.0 s;
            resource_type = rt;
            granted = e;
            by_type = t;
          },
      λ z. step₁.1 (
        verified.1 z.verified,
        step₂.1 (
          revocation.1 z.not_stopped,
          step₃.1 (
            window.1 z.in_window,
            step₄.1 (
              origin_test.1 (origin_eq.1 z.origin),
              step₅.1 (scope.1 z.target, granted.1 (z.resource_type, z.granted, z.by_type)),
            ),
          ),
        ),
      ),
    )

-- A request is allowed exactly when the grant authorizes it: a mint has verified selectors, the
-- revocation is fresh and does not stop the operation, the time lies in the window, the origin is
-- the grant's, the target is in scope, and the resource type is granted and authorizes it. Without an
-- operation scope a mint is denied, and without a minting limit it needs no mint context, unlike in
-- docs/TRUSTGRANT_V0_SPEC.md (§6.1, §13 step 10).
pub evaluate_iff :
    (g : VerifiedTrustGrant) (r : EvaluationRequest)
    → (is_allowed (evaluate g r).decision ≡ true) ↔ Authorizes g r
unfolding evaluate evaluate_inner
evaluate_iff g r = elim (Result-cases (evaluate_checks g r)) [
  | inl e ↦ rw e (λ _. (checks_iff g r).0 e, λ _. refl)
  | inr (reason, e) ↦ rw e (λ h. cc, λ a. cc ((checks_iff g r).1 a))
]
