-- ===== src/Evaluate/Execution.antt =====
-- crates/trustgrant-evaluate/src/execution.rs: the in-memory executor. The caller's `apply` gets the
-- transaction and may leave any other in its place; what it leaves beside an error is dropped.
-- `panicked` stands for the `unwrap` in the source and for a panic in the caller's `apply`; the executor
-- then still has the state that it had, since the transaction is a copy.
pub mod Run
pub mod Parts
pub mod Replay
pub mod Counters
pub mod Limits
pub mod Versions
pub mod Panics
pub mod Authorized
use trustgrant.Prelude.{
  ℕ, ◌+◌, Bool, true, false, ◌&&◌, not, Option, none, some, Result, ok, err, ◌>>=◌, ◌>>◌, guard,
  ok_or, ◌==◌, Eq, nat_eq, list_eq, option_eq, pair_eq, eq_via, eq_list, eqb, ltb, if◌then◌else◌,
  List, [], ◌∷◌, ◌++◌, unwrap_or, refl, traverse_option,
}
use trustgrant.Prelude.Assoc
use trustgrant.Prelude.Text.{Text}
use trustgrant.Domain.Ids.{TrustGrantId}
use trustgrant.Domain.Names.{ResourceTypeName, resource_type_name_eq}
use trustgrant.Domain.Authority.{AuthorityId, same_authority, authority_id_eq}
use trustgrant.Verify.Grant.{VerifiedTrustGrant}
use trustgrant.Evaluate.Context.StableKey.{stable_key}
use trustgrant.Evaluate.Request.{
  ResourceRef, IntentId, intent_id_eq, EvaluationRequest, MintContext, new_mint_context,
  with_quantity, with_runtime_mint_context,
}
use trustgrant.Evaluate.Decision.{is_allowed}
use trustgrant.Evaluate.Engine.{u64_max}
use trustgrant.Evaluate.Engine.Inner.{evaluate}
use trustgrant.Evaluate.Mutation.{
  MutationRequest, MutationAuthorization, new_mutation_authorization, authorization_matches,
  is_mint, existing_resource,
}

pub data InMemoryExecutionError : Type 0 where
  unknown_resource missing_typed_resource_reference counter_overflow : InMemoryExecutionError

pub record ResourceKey : Type 0 where
  pub origin_authority : AuthorityId
  pub resource_type : ResourceTypeName
  pub resource_id : Text

instance abbrev pub resource_key_eq : Eq ResourceKey
resource_key_eq =
    eq_via (λ k. (k.origin_authority, (k.resource_type, k.resource_id)))
      (λ p. record { origin_authority = p.0; resource_type = p.1.0; resource_id = p.1.1 })
      (λ k. refl) (pair_eq {A = AuthorityId} {B = ResourceTypeName × Text})

unfoldable pub resource_key : ResourceRef → Result InMemoryExecutionError ResourceKey
resource_key r = do
  resource_type ← ok_or r.resource_type missing_typed_resource_reference
  ok (record {
    origin_authority = r.origin_authority;
    resource_type = resource_type;
    resource_id = r.resource_id;
  })

pub record MintTotalKey : Type 0 where
  pub grant_id : TrustGrantId
  pub resource_type : ResourceTypeName

instance abbrev pub mint_total_key_eq : Eq MintTotalKey
mint_total_key_eq =
    eq_via (λ k. (k.grant_id, k.resource_type))
      (λ p. record { grant_id = p.0; resource_type = p.1 }) (λ k. refl) pair_eq

pub record MintPrincipalKey : Type 0 where
  pub total_key : MintTotalKey
  pub principal_context : Text

instance abbrev pub mint_principal_key_eq : Eq MintPrincipalKey
mint_principal_key_eq =
    eq_via (λ k. (k.total_key, k.principal_context))
      (λ p. record { total_key = p.0; principal_context = p.1 }) (λ k. refl) pair_eq

pub record InMemoryExecutionState : Type 0 where
  pub resource_versions : List (ResourceKey × ℕ)
  pub total_mints : List (MintTotalKey × ℕ)
  pub mints_for_principal : List (MintPrincipalKey × ℕ)
  pub processed : List (IntentId × MutationAuthorization)
  pub audit_log : List MutationAuthorization

abbrev pub new_executor : InMemoryExecutionState
new_executor = record {
  resource_versions = [];
  total_mints = [];
  mints_for_principal = [];
  processed = [];
  audit_log = [];
}

unfoldable pub register_resource :
    InMemoryExecutionState → ResourceRef → ℕ → Result InMemoryExecutionError InMemoryExecutionState
unfolding resource_key Assoc.insert
register_resource s resource version = do
  key ← resource_key resource
  ok (record s { resource_versions = Assoc.insert key version s.resource_versions })

unfoldable pub mint_total_key : VerifiedTrustGrant → MutationRequest → MintTotalKey
mint_total_key grant r = record {
  grant_id = grant.document.lineage.trustgrant_id;
  resource_type = r.request.resource.resource_type;
}

unfoldable pub mint_principal_key : VerifiedTrustGrant → MutationRequest → MintPrincipalKey
unfolding mint_total_key stable_key
mint_principal_key grant r = record {
  total_key = mint_total_key grant r;
  principal_context = stable_key r.request.audience_principal_context;
}

-- `u64::checked_add`
unfoldable pub advance : ℕ → ℕ → Result InMemoryExecutionError ℕ
advance value delta =
    if ltb u64_max (value + delta) then err counter_overflow else ok (value + delta)

unfoldable pub total_of : InMemoryExecutionState → MintTotalKey → ℕ
unfolding Assoc.get
total_of s key = unwrap_or 0 (Assoc.get key s.total_mints)

unfoldable pub principal_total_of : InMemoryExecutionState → MintPrincipalKey → ℕ
unfolding Assoc.get
principal_total_of s key = unwrap_or 0 (Assoc.get key s.mints_for_principal)

abbrev pub quantity_of : Option MintContext → ℕ
quantity_of none = 1
quantity_of (some c) = c.requested_quantity

-- The request with the executor's own counters; the caller's quantity is kept.
unfoldable pub evaluation_request :
    InMemoryExecutionState → VerifiedTrustGrant → MutationRequest → Option EvaluationRequest
unfolding total_of principal_total_of with_quantity mint_total_key mint_principal_key
evaluation_request s grant r =
    if is_mint r
    then elim (with_quantity
        (new_mint_context (total_of s (mint_total_key grant r))
          (principal_total_of s (mint_principal_key grant r)))
        (quantity_of r.request.mint_context)) [
          | ok c ↦ some (with_runtime_mint_context r.request c)
          | err e ↦ none
        ]
    else some r.request

abbrev pub log : MutationAuthorization → InMemoryExecutionState → InMemoryExecutionState
log a s = record s { audit_log = s.audit_log ++ a ∷ [] }

-- The current version, if it is not the expected one.
unfoldable pub check_version :
    InMemoryExecutionState
    → Option ResourceRef
    → Option ResourceKey
    → Result InMemoryExecutionError (Option ℕ)
unfolding Assoc.get
check_version s resource none = ok none
check_version s none (some key) = err missing_typed_resource_reference
check_version s (some resource) (some key) = do
  current ← ok_or (Assoc.get key s.resource_versions) unknown_resource
  expected ← ok_or resource.expected_version missing_typed_resource_reference
  ok (if eqb expected current then none else some current)

unfoldable pub advance_mints :
    MintTotalKey
    → MintPrincipalKey
    → ℕ
    → InMemoryExecutionState
    → Result InMemoryExecutionError InMemoryExecutionState
unfolding advance total_of principal_total_of Assoc.insert
advance_mints total_key principal_key quantity s = do
  total ← advance (total_of s total_key) quantity
  for_principal ← advance (principal_total_of s principal_key) quantity
  ok (record s {
    total_mints = Assoc.insert total_key total s.total_mints;
    mints_for_principal = Assoc.insert principal_key for_principal s.mints_for_principal;
  })

unfoldable pub advance_version :
    Option ResourceKey
    → InMemoryExecutionState
    → Result InMemoryExecutionError InMemoryExecutionState
unfolding advance Assoc.get Assoc.insert
advance_version none s = ok s
advance_version (some key) s = do
  current ← ok_or (Assoc.get key s.resource_versions) unknown_resource
  next ← advance current 1
  ok (record s { resource_versions = Assoc.insert key next s.resource_versions })
