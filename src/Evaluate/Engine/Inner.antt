-- ===== src/Evaluate/Engine/Inner.antt =====
-- engine.rs, `evaluate_resource_type`, `evaluate_inner` and `evaluate`: the order of the checks.
use trustgrant.Prelude.{
  Bool, true, ◌&&◌, not, Option, none, some, List, ok, err, ◌>>=◌, ◌>>◌, guard, ok_or, ltb,
  is_empty, ◌==◌, if◌then◌else◌, eq_list,
}
use trustgrant.Prelude.Assoc
use trustgrant.Domain.Names.{resource_type_name_eq}
use trustgrant.Domain.Authority.{same_authority, authority_id_eq}
use trustgrant.Domain.Ownership.{Instant}
use trustgrant.Domain.Ids.{TrustGrantId}
use trustgrant.Revocation.{
  VerifiedRevocationState, non_revocable, checked, is_fresh_at, status_is_revoked,
}
use trustgrant.Document.Model.{
  ValidatedAudienceEntry, ValidatedResourceType, ValidatedTimeWindow, ValidatedRevocation,
  block_all, block_minting_only,
}
use trustgrant.Verify.Grant.{NormalizedTrustGrantDocument, VerifiedTrustGrant}
use trustgrant.Evaluate.Request.{
  RequestedOperation, EvaluationRequest, origin_authority, is_mint_operation,
}
use trustgrant.Evaluate.Decision.{
  EvaluationDecision, EvaluationOutcome, allow, deny, revoked, not_yet_valid, expired,
  resource_type_not_granted, resource_denied, resource_not_allowed, capability_disabled,
  origin_authority_mismatch, unverified_selectors, stale_revocation_data,
}
use trustgrant.Evaluate.Engine.{
  Evaluation, evaluate_scope, evaluate_scope_with_reasons, evaluate_audience, is_capability_enabled,
  is_operation_allowed, evaluate_minting_constraints,
}

-- A type without an audience scope of its own takes the grant's default.
abbrev pub audience_scope_for :
    NormalizedTrustGrantDocument → ValidatedResourceType → List ValidatedAudienceEntry
audience_scope_for document rt =
    if is_empty rt.constraints.audience_scope
    then document.default_audience_scope
    else rt.constraints.audience_scope

unfoldable pub evaluate_resource_type :
    NormalizedTrustGrantDocument → ValidatedResourceType → EvaluationRequest → Evaluation
unfolding is_capability_enabled evaluate_scope_with_reasons is_operation_allowed evaluate_audience
    evaluate_minting_constraints
evaluate_resource_type document rt request = do
  guard (is_capability_enabled document.capabilities rt request.operation) capability_disabled
  evaluate_scope_with_reasons rt.all rt.allow rt.deny request.resource.selectors resource_denied
      resource_not_allowed
  is_operation_allowed rt.operations request.operation
  evaluate_audience (audience_scope_for document rt) request
  evaluate_minting_constraints rt.constraints.minting request

-- Whether a revocation stops the operation: one that blocks only minting stops only that.
abbrev pub should_deny : Option ValidatedRevocation → RequestedOperation → Bool
should_deny none operation = true
should_deny (some rev) operation = elim rev.post_revocation_effect [
  | block_minting_only ↦ is_mint_operation operation
  | block_all ↦ true
]

unfoldable pub check_revocation :
    VerifiedRevocationState → Option ValidatedRevocation → EvaluationRequest → Evaluation
unfolding is_fresh_at
check_revocation non_revocable rev request = ok tt
check_revocation (checked r) rev request = do
  guard (is_fresh_at r request.evaluated_at) stale_revocation_data
  guard (not (status_is_revoked r.status && should_deny rev request.operation)) revoked

unfoldable pub check_time_window : Option ValidatedTimeWindow → Instant → Evaluation
check_time_window none at = ok tt
check_time_window (some w) at = do
  guard (not (ltb at w.not_before)) not_yet_valid
  guard (not (ltb w.not_after at)) expired

-- The checks of `evaluate_inner` in their order.
unfoldable pub evaluate_checks : VerifiedTrustGrant → EvaluationRequest → Evaluation
unfolding check_revocation check_time_window evaluate_scope evaluate_resource_type same_authority
    Assoc.get eq_list
evaluate_checks grant request = do
  guard (not (is_mint_operation request.operation && not request.selectors_verified))
      unverified_selectors
  check_revocation grant.metadata.revocation grant.document.revocation request
  check_time_window grant.document.global_time_window request.evaluated_at
  guard (origin_authority request == grant.document.ownership_authority_state.origin_authority)
      origin_authority_mismatch
  evaluate_scope grant.document.target_scope request.target_context
  rt ←
      ok_or (Assoc.get request.resource.resource_type grant.document.resource_scope)
        resource_type_not_granted
  evaluate_resource_type grant.document rt request

abbrev pub decide : TrustGrantId → Evaluation → EvaluationDecision
decide id (ok _) = allow id
decide id (err reason) = deny id reason

unfoldable pub evaluate_inner :
    VerifiedTrustGrant → EvaluationRequest → TrustGrantId → EvaluationDecision
unfolding evaluate_checks
evaluate_inner grant request id = decide id (evaluate_checks grant request)

unfoldable pub evaluate : VerifiedTrustGrant → EvaluationRequest → EvaluationOutcome
unfolding evaluate_inner
evaluate grant request = record {
  decision = evaluate_inner grant request grant.document.lineage.trustgrant_id;
  request = request;
}
