-- ===== src/Evaluate/Engine.antt =====
-- crates/trustgrant-evaluate/src/engine.rs. Tracing is left out. A `u64` is a number below 2 ^ 64.
pub mod Inner
pub mod Matching
pub mod Scopes
pub mod Limits
use trustgrant.Prelude.{
  ℕ, ◌+◌, ◌-◌, ◌^◌, Bool, true, false, ◌&&◌, ◌||◌, not, Option, none, some, List, [], ◌∷◌, Result,
  ok, err, ◌>>=◌, ◌>>◌, guard, ◌==◌, nat_eq, list_eq, eq_list, ltb, leb, if◌then◌else◌, length, any,
  find, is_some, is_empty, unwrap_or,
}
use trustgrant.Prelude.Text.{Text, codes}
use trustgrant.Prelude.Assoc
use trustgrant.Domain.Names.{OperationName, resource_type_name_eq}
use trustgrant.Domain.Expression.{SelectorExpression, matches}
use trustgrant.Domain.Authority.{same_authority, authority_id_eq}
use trustgrant.Domain.Ownership.{Instant}
use trustgrant.Revocation.{
  RevocationRecord, VerifiedRevocationState, non_revocable, checked, is_fresh_at, status_is_revoked,
}
use trustgrant.Document.Model.{
  ValidatedSelector, ValidatedScope, ValidatedAudienceEntry, ValidatedCapabilities,
  ValidatedResourceType, ValidatedOperationScope, ValidatedMintingConstraints, ValidatedTimeWindow,
  ValidatedRevocation, PostRevocationEffect, block_all, block_minting_only,
}
use trustgrant.Verify.Grant.{NormalizedTrustGrantDocument, VerifiedTrustGrant}
use trustgrant.Evaluate.Context.{SelectorContext, values_for_kind}
use trustgrant.Evaluate.Request.{
  RequestedOperation, capability, custom, recognize, mint, MintContext, EvaluationRequest,
  origin_authority, is_mint_operation,
}
use trustgrant.Evaluate.Decision.{
  EvaluationDenyReason, EvaluationDecision, EvaluationOutcome, allow, deny, revoked, not_yet_valid,
  expired, target_denied, target_not_allowed, resource_type_not_granted, resource_denied,
  resource_not_allowed, audience_denied, audience_not_allowed, audience_principal_denied,
  audience_principal_not_allowed, capability_disabled, operation_denied, origin_authority_mismatch,
  missing_mint_context, missing_audience_principal_context, mint_total_limit_reached,
  mint_per_user_limit_reached, unverified_selectors, stale_revocation_data,
}

abbrev pub u64_max : ℕ
u64_max = 2 ^ 64 - 1

-- `u64::saturating_add`
unfoldable pub saturating_add : ℕ → ℕ → ℕ
saturating_add a b = if ltb u64_max (a + b) then u64_max else a + b

-- `ScopeEvaluation` and `ResourceEvaluation`, and `Result<(), EvaluationDenyReason>`: `ok tt` is
-- `Allowed`, `err reason` is `Denied(reason)`.
abbrev pub Evaluation : Type 0
Evaluation = Result EvaluationDenyReason (Unit {0})

-- `HashSet::insert` and `HashSet::contains` over a list of distinct texts.
unfoldable pub contains : Text → List Text → Bool
unfolding any eq_list
contains value set = any (λ v. v == value) set

unfoldable pub collect_set : List Text → List Text
unfolding contains
collect_set [] = []
collect_set (v ∷ vs) = let set = collect_set vs in if contains v set then set else v ∷ set

-- The two ways to look the selector's values up, by the number of the context's values.
unfoldable pub values_match : List Text → List Text → Bool
unfolding any eq_list contains collect_set
values_match values context_values =
    if leb (length context_values) 8
    then any (λ value. any (λ candidate. candidate == value) context_values) values
    else any (λ value. contains value (collect_set context_values)) values

-- `SelectorMatch::Matched` is `true`.
unfoldable pub selector_matches_context : ValidatedSelector → SelectorContext → Bool
unfolding values_for_kind values_match any matches
selector_matches_context selector context =
    if selector.all then true else elim (values_for_kind context selector.kind) [
      | none ↦ false
      | some context_values ↦
          if values_match selector.values context_values
          then true
          else any (λ expression. any (λ value. matches expression value) context_values)
              selector.expressions
    ]

unfoldable pub evaluate_scope_with_reasons :
    Bool
    → List ValidatedSelector
    → List ValidatedSelector
    → SelectorContext
    → EvaluationDenyReason
    → EvaluationDenyReason
    → Evaluation
unfolding selector_matches_context any
evaluate_scope_with_reasons all allow deny context denied_reason not_allowed_reason =
    if not all && not (any (λ s. selector_matches_context s context) allow)
    then err not_allowed_reason
    else if any (λ s. selector_matches_context s context) deny
    then err denied_reason
    else ok tt

unfoldable pub evaluate_scope : ValidatedScope → SelectorContext → Evaluation
unfolding evaluate_scope_with_reasons
evaluate_scope scope context =
    evaluate_scope_with_reasons scope.all scope.allow scope.deny context target_denied
      target_not_allowed

-- The principal scope of an audience entry.
abbrev pub evaluate_principal_scope : Option ValidatedScope → SelectorContext → Evaluation
evaluate_principal_scope none context = ok tt
evaluate_principal_scope (some scope) context =
    evaluate_scope_with_reasons scope.all scope.allow scope.deny context audience_principal_denied
      audience_principal_not_allowed

unfoldable pub evaluate_audience_entry : ValidatedAudienceEntry → EvaluationRequest → Evaluation
unfolding evaluate_scope_with_reasons
evaluate_audience_entry entry request = do
  evaluate_scope_with_reasons entry.scope.all entry.scope.allow entry.scope.deny
      request.audience_context audience_denied audience_not_allowed
  evaluate_principal_scope entry.principal_scope request.audience_principal_context

unfoldable pub evaluate_audience : List ValidatedAudienceEntry → EvaluationRequest → Evaluation
unfolding evaluate_audience_entry find same_authority
evaluate_audience audience_scope request =
    if is_empty audience_scope
    then ok tt
    else elim (find (λ (e : ValidatedAudienceEntry). e.authority_id == request.audience_authority)
        audience_scope) [
          | none ↦ err audience_not_allowed
          | some entry ↦ evaluate_audience_entry entry request
        ]

unfoldable pub is_capability_enabled :
    ValidatedCapabilities → ValidatedResourceType → RequestedOperation → Bool
is_capability_enabled caps rt (capability recognize) =
    unwrap_or caps.recognize rt.capabilities.recognize
is_capability_enabled caps rt (capability mint) = unwrap_or caps.mint rt.capabilities.mint
is_capability_enabled caps rt (custom name) = true

-- The name that an operation scope lists the operation by.
abbrev pub requested_name : RequestedOperation → Text
requested_name (capability recognize) = codes "recognize"
requested_name (capability mint) = codes "create"
requested_name (custom name) = name.operation_name.as_str

abbrev pub is_recognize : RequestedOperation → Bool
is_recognize (capability recognize) = true
is_recognize (capability mint) = false
is_recognize (custom name) = false

abbrev pub lists : List OperationName → Text → Bool
lists names requested = any (λ (n : OperationName). n.as_str == requested) names

unfoldable pub is_operation_allowed :
    Option ValidatedOperationScope → RequestedOperation → Evaluation
unfolding any eq_list
is_operation_allowed none operation = if is_recognize operation then ok tt else err operation_denied
is_operation_allowed (some scope) operation =
    if lists scope.deny (requested_name operation)
    then err operation_denied
    else if lists scope.allow (requested_name operation)
    then ok tt
    else err operation_denied

-- `if let Some(max_total) = constraints.max_total()`
unfoldable pub check_max_total : Option ℕ → MintContext → Evaluation
unfolding saturating_add
check_max_total none c = ok tt
check_max_total (some max_total) c =
    if ltb max_total (saturating_add c.current_total_mints c.requested_quantity)
    then err mint_total_limit_reached
    else ok tt

-- `if let Some(max_per_user) = constraints.max_per_user()`
unfoldable pub check_max_per_user : Option ℕ → SelectorContext → MintContext → Evaluation
unfolding saturating_add
check_max_per_user none principal c = ok tt
check_max_per_user (some max_per_user) principal c =
    if is_empty principal.entries
    then err missing_audience_principal_context
    else if ltb max_per_user (saturating_add c.current_mints_for_audience c.requested_quantity)
    then err mint_per_user_limit_reached
    else ok tt

abbrev pub check_mint_limits :
    ValidatedMintingConstraints → SelectorContext → Option MintContext → Evaluation
check_mint_limits constraints principal none =
    if is_some constraints.max_total || is_some constraints.max_per_user
    then err missing_mint_context
    else ok tt
check_mint_limits constraints principal (some c) = do
  check_max_total constraints.max_total c
  check_max_per_user constraints.max_per_user principal c

unfoldable pub evaluate_minting_constraints :
    ValidatedMintingConstraints → EvaluationRequest → Evaluation
unfolding check_max_total check_max_per_user
evaluate_minting_constraints constraints request =
    if not (is_mint_operation request.operation)
    then ok tt
    else check_mint_limits constraints request.audience_principal_context request.mint_context
