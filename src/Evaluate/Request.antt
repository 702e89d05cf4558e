-- ===== src/Evaluate/Request.antt =====
-- crates/trustgrant-evaluate/src/request.rs: requests and what they refer to.
use trustgrant.Prelude.{
  ℕ, Bool, true, false, Option, none, some, Result, ok, err, ◌>>=◌, ◌==◌, Eq, nat_eq, list_eq,
  option_eq, eqb, if◌then◌else◌, ap, eq_list_iff,
}
use trustgrant.Prelude.Text.{Text, codes}
use trustgrant.Errors.Kinds.{TrustGrantError, invalid_mint_quantity}
use trustgrant.Domain.Names.{
  ResourceTypeName, CustomOperationName, new_resource_type_name, resource_type_name_eq,
  custom_operation_name_eq,
}
use trustgrant.Domain.Authority.{AuthorityId, authority_id_eq}
use trustgrant.Domain.Ownership.{Instant}
use trustgrant.Evaluate.Context.{
  SelectorContext, new_selector_context, normalize_context_value, insert,
}

pub data RequestedCapability : Type 0 where
  recognize mint : RequestedCapability

pub data RequestedOperation : Type 0 where
  capability : RequestedCapability → RequestedOperation
  custom : CustomOperationName → RequestedOperation

abbrev pub is_mint_operation : RequestedOperation → Bool
is_mint_operation (capability mint) = true
is_mint_operation (capability recognize) = false
is_mint_operation (custom name) = false

pub record ResourceRef : Type 0 where
  pub origin_authority : AuthorityId
  pub resource_type : Option ResourceTypeName
  pub resource_id : Text
  pub expected_version : Option ℕ

unfoldable pub new_typed_resource_ref :
    AuthorityId → Text → Text → Result TrustGrantError ResourceRef
unfolding new_resource_type_name normalize_context_value
new_typed_resource_ref origin_authority resource_type resource_id = do
  resource_type' ← new_resource_type_name resource_type
  resource_id' ← normalize_context_value "resource_ref.resource_id" resource_id
  ok (record {
    origin_authority = origin_authority;
    resource_type = some resource_type';
    resource_id = resource_id';
    expected_version = none;
  })

pub record TemplateRef : Type 0 where
  pub origin_authority : AuthorityId
  pub template_id : Option Text

unfoldable pub new_typed_template_ref : AuthorityId → Text → Result TrustGrantError TemplateRef
unfolding normalize_context_value
new_typed_template_ref origin_authority template_id = do
  template_id' ← normalize_context_value "template_ref.template_id" template_id
  ok (record { origin_authority = origin_authority; template_id = some template_id' })

pub data ResourceBinding : Type 0 where
  existing : ResourceRef → ResourceBinding
  mint_from : TemplateRef → ResourceBinding

abbrev pub binding_origin : ResourceBinding → AuthorityId
binding_origin (existing r) = r.origin_authority
binding_origin (mint_from t) = t.origin_authority

-- The counters are `u64`.
pub record MintContext : Type 0 where
  pub current_total_mints : ℕ
  pub current_mints_for_audience : ℕ
  pub requested_quantity : ℕ

abbrev pub new_mint_context : ℕ → ℕ → MintContext
new_mint_context total for_audience = record {
  current_total_mints = total;
  current_mints_for_audience = for_audience;
  requested_quantity = 1;
}

unfoldable pub with_quantity : MintContext → ℕ → Result TrustGrantError MintContext
with_quantity c quantity =
    if eqb quantity 0
    then err invalid_mint_quantity
    else ok (record c { requested_quantity = quantity })

pub record ResourceContext : Type 0 where
  pub resource_type : ResourceTypeName
  pub selectors : SelectorContext

pub record IntentId : Type 0 where
  pub as_str : Text

unfoldable pub new_intent_id : Text → Result TrustGrantError IntentId
unfolding normalize_context_value
new_intent_id value = do
  value' ← normalize_context_value "intent_id" value
  ok (record { as_str = value' })

instance abbrev pub intent_id_eq : Eq IntentId
intent_id_eq = record {
  beq = λ a b. a.as_str == b.as_str;
  beq_iff = λ a b. (
    (λ h. λ i. record { as_str = (eq_list_iff a.as_str b.as_str).0 h i }),
    λ p. (eq_list_iff a.as_str b.as_str).1 (ap (λ (x : IntentId). x.as_str) p),
  );
}

pub record EvaluationRequest : Type 0 where
  pub operation : RequestedOperation
  pub resource_binding : ResourceBinding
  pub intent_id : Option IntentId
  pub target_authority : AuthorityId
  pub target_context : SelectorContext
  pub audience_authority : AuthorityId
  pub audience_context : SelectorContext
  pub audience_principal_context : SelectorContext
  pub resource : ResourceContext
  pub mint_context : Option MintContext
  pub evaluated_at : Instant
  pub selectors_verified : Bool

-- `insert("authority", …)` and `insert("authority_id", …)`
unfoldable pub authority_context : AuthorityId → Result TrustGrantError SelectorContext
unfolding insert
authority_context a = do
  ctx ← insert (codes "authority") a.value new_selector_context
  insert (codes "authority_id") a.value ctx

unfoldable pub new_evaluation_request :
    RequestedOperation
    → ResourceBinding
    → AuthorityId
    → AuthorityId
    → ResourceContext
    → Instant
    → Result TrustGrantError EvaluationRequest
unfolding authority_context
new_evaluation_request operation resource_binding target audience resource evaluated_at = do
  target_context ← authority_context target
  audience_context ← authority_context audience
  ok (record {
    operation = operation;
    resource_binding = resource_binding;
    intent_id = none;
    target_authority = target;
    target_context = target_context;
    audience_authority = audience;
    audience_context = audience_context;
    audience_principal_context = new_selector_context;
    resource = resource;
    mint_context = none;
    evaluated_at = evaluated_at;
    selectors_verified = false;
  })

abbrev pub verify_selectors : EvaluationRequest → EvaluationRequest
verify_selectors r = record r { selectors_verified = true }

abbrev pub with_runtime_mint_context : EvaluationRequest → MintContext → EvaluationRequest
with_runtime_mint_context r c = record r { mint_context = some c }

abbrev pub with_intent_id : EvaluationRequest → IntentId → EvaluationRequest
with_intent_id r id = record r { intent_id = some id }

abbrev pub origin_authority : EvaluationRequest → AuthorityId
origin_authority r = binding_origin r.resource_binding
