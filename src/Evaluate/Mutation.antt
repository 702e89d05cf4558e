-- ===== src/Evaluate/Mutation.antt =====
-- crates/trustgrant-evaluate/src/execution.rs: requests that change the inventory, and their
-- authorization.
use trustgrant.Prelude.{
  Bool, true, false, ◌&&◌, Option, none, some, Result, ok, err, ◌>>=◌, ◌>>◌, guard, ok_or, ◌==◌,
  nat_eq, list_eq, option_eq, pair_eq, eq_list, eq_option, eqb, List, [], ◌∷◌, is_some,
}
use trustgrant.Errors.Kinds.{
  TrustGrantError, missing_mutation_intent_id, missing_template_id,
  invalid_mutation_resource_binding, missing_resource_type_binding, resource_type_binding_mismatch,
  missing_expected_resource_version,
}
use trustgrant.Domain.Ids.{TrustGrantId}
use trustgrant.Domain.Names.{
  ResourceTypeName, resource_type_name_eq, custom_operation_name_eq, same_kind,
}
use trustgrant.Domain.Authority.{AuthorityId, same_authority, authority_id_eq}
use trustgrant.Domain.Ownership.{Instant}
use trustgrant.Verify.Grant.{VerifiedTrustGrant}
use trustgrant.Evaluate.Context.{SelectorContext, SelectorValues}
use trustgrant.Evaluate.Request.{
  RequestedOperation, capability, custom, recognize, mint, ResourceRef, ResourceBinding, existing,
  mint_from, IntentId, EvaluationRequest, is_mint_operation,
}
use trustgrant.Evaluate.Decision.{EvaluationOutcome}
use trustgrant.Evaluate.Engine.Inner.{evaluate}

pub record MutationRequest : Type 0 where
  pub request : EvaluationRequest
  pub intent_id : IntentId
  pub actor : Option AuthorityId
  pub envelope_expires_at : Option Instant

-- The reference of an operation other than a mint.
abbrev check_existing : ResourceRef → ResourceTypeName → Result TrustGrantError (Unit {0})
check_existing resource requested = do
  resource_type ← ok_or resource.resource_type missing_resource_type_binding
  guard (resource_type == requested) resource_type_binding_mismatch
  guard (is_some resource.expected_version) missing_expected_resource_version

-- `match (request.operation(), request.resource_binding())`
abbrev check_binding :
    RequestedOperation → ResourceBinding → ResourceTypeName → Result TrustGrantError (Unit {0})
check_binding (capability mint) (mint_from template) requested =
    guard (is_some template.template_id) missing_template_id
check_binding (capability mint) (existing resource) requested =
    err invalid_mutation_resource_binding
check_binding (capability recognize) (mint_from template) requested =
    err invalid_mutation_resource_binding
check_binding (capability recognize) (existing resource) requested =
    check_existing resource requested
check_binding (custom name) (mint_from template) requested = err invalid_mutation_resource_binding
check_binding (custom name) (existing resource) requested = check_existing resource requested

-- `TryFrom<EvaluationRequest>`
unfoldable pub try_from : EvaluationRequest → Result TrustGrantError MutationRequest
unfolding eq_list
try_from request = do
  intent_id ← ok_or request.intent_id missing_mutation_intent_id
  check_binding request.operation request.resource_binding request.resource.resource_type
  ok (record { request = request; intent_id = intent_id; actor = none; envelope_expires_at = none })

abbrev pub with_actor : MutationRequest → AuthorityId → MutationRequest
with_actor r a = record r { actor = some a }

abbrev pub with_envelope_expiry : MutationRequest → Instant → MutationRequest
with_envelope_expiry r at = record r { envelope_expires_at = some at }

abbrev pub is_mint : MutationRequest → Bool
is_mint r = is_mint_operation r.request.operation

abbrev existing_of : ResourceBinding → Option ResourceRef
existing_of (existing resource) = some resource
existing_of (mint_from template) = none

abbrev pub existing_resource : MutationRequest → Option ResourceRef
existing_resource r = existing_of r.request.resource_binding

-- The derived `PartialEq` of the parts of a request; kinds are compared by `same_kind`.
unfoldable pub same_operation : RequestedOperation → RequestedOperation → Bool
unfolding eq_list
same_operation (capability recognize) (capability recognize) = true
same_operation (capability recognize) (capability mint) = false
same_operation (capability recognize) (custom b) = false
same_operation (capability mint) (capability recognize) = false
same_operation (capability mint) (capability mint) = true
same_operation (capability mint) (custom b) = false
same_operation (custom a) (capability b) = false
same_operation (custom a) (custom b) = a == b

unfoldable pub same_binding : ResourceBinding → ResourceBinding → Bool
unfolding same_authority eq_option eq_list
same_binding (existing a) (existing b) =
    a.origin_authority == b.origin_authority
    && (a.resource_type == b.resource_type
        && (a.resource_id == b.resource_id && a.expected_version == b.expected_version))
same_binding (existing a) (mint_from b) = false
same_binding (mint_from a) (existing b) = false
same_binding (mint_from a) (mint_from b) =
    a.origin_authority == b.origin_authority && a.template_id == b.template_id

unfoldable pub same_entries : List SelectorValues → List SelectorValues → Bool
unfolding same_kind eq_list
same_entries [] [] = true
same_entries [] (b ∷ bs) = false
same_entries (a ∷ as') [] = false
same_entries (a ∷ as') (b ∷ bs) =
    (same_kind a.kind b.kind && a.values == b.values) && same_entries as' bs

unfoldable pub same_context : SelectorContext → SelectorContext → Bool
unfolding same_entries eq_list eq_option
same_context a b = same_entries a.entries b.entries && a.kind_index == b.kind_index

unfoldable pub same_mutation_intent : EvaluationRequest → EvaluationRequest → Bool
unfolding same_operation same_binding same_context same_authority eq_list
same_mutation_intent a b =
    same_operation a.operation b.operation
    && (same_binding a.resource_binding b.resource_binding
        && (a.target_authority == b.target_authority
            && (same_context a.target_context b.target_context
                && (a.audience_authority == b.audience_authority
                    && (same_context a.audience_context b.audience_context
                        && (same_context a.audience_principal_context b.audience_principal_context
                            && (a.resource.resource_type == b.resource.resource_type
                                && same_context a.resource.selectors b.resource.selectors)))))))

pub record MutationAuthorization : Type 0 where
  pub outcome : EvaluationOutcome
  pub actor : Option AuthorityId
  pub intent_id : IntentId
  pub envelope_expires_at : Option Instant

abbrev pub new_mutation_authorization : MutationRequest → EvaluationOutcome → MutationAuthorization
new_mutation_authorization r outcome = record {
  outcome = outcome;
  actor = r.actor;
  intent_id = r.intent_id;
  envelope_expires_at = r.envelope_expires_at;
}

-- `MutationAuthorization::matches`
unfoldable pub authorization_matches : MutationAuthorization → TrustGrantId → MutationRequest → Bool
unfolding same_mutation_intent
authorization_matches a grant_id r =
    eqb a.outcome.decision.trustgrant_id grant_id
    && same_mutation_intent a.outcome.request r.request

unfoldable pub authorize_mutation : VerifiedTrustGrant → MutationRequest → MutationAuthorization
unfolding evaluate
authorize_mutation grant r = new_mutation_authorization r (evaluate grant r.request)
