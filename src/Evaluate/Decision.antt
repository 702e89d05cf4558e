-- ===== src/Evaluate/Decision.antt =====
-- crates/trustgrant-evaluate/src/decision.rs: the answer to a request.
use trustgrant.Prelude.{Bool, Option, none, some, not, is_some}
use trustgrant.Domain.Ids.{TrustGrantId}
use trustgrant.Evaluate.Request.{EvaluationRequest}

pub data EvaluationDenyReason : Type 0 where
  revoked not_yet_valid expired target_denied target_not_allowed : EvaluationDenyReason
  resource_type_not_granted resource_denied resource_not_allowed : EvaluationDenyReason
  audience_denied audience_not_allowed audience_principal_denied : EvaluationDenyReason
  audience_principal_not_allowed capability_disabled operation_denied : EvaluationDenyReason
  origin_authority_mismatch missing_mint_context : EvaluationDenyReason
  missing_audience_principal_context mint_total_limit_reached : EvaluationDenyReason
  mint_per_user_limit_reached unverified_selectors stale_revocation_data : EvaluationDenyReason

pub record EvaluationDecision : Type 0 where
  pub trustgrant_id : TrustGrantId
  pub deny_reason : Option EvaluationDenyReason

abbrev pub allow : TrustGrantId → EvaluationDecision
allow id = record { trustgrant_id = id; deny_reason = none }

abbrev pub deny : TrustGrantId → EvaluationDenyReason → EvaluationDecision
deny id reason = record { trustgrant_id = id; deny_reason = some reason }

abbrev pub is_allowed : EvaluationDecision → Bool
is_allowed d = not (is_some d.deny_reason)

pub record EvaluationOutcome : Type 0 where
  pub decision : EvaluationDecision
  pub request : EvaluationRequest
