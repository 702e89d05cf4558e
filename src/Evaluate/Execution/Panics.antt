-- ===== src/Evaluate/Execution/Panics.antt =====
-- execution.rs: when a call does not return. The `unwrap` in the source panics on a quantity of zero, and
-- the caller's closure may panic.
use trustgrant.Prelude.{true, Option, none, some, ◌≡◌, ◌⊎◌, ok, traverse_option}
use trustgrant.Prelude.Assoc
use trustgrant.Verify.Grant.{VerifiedTrustGrant}
use trustgrant.Evaluate.Request.{EvaluationRequest, intent_id_eq}
use trustgrant.Evaluate.Engine.Inner.{evaluate}
use trustgrant.Evaluate.Authorization.{Authorizes}
use trustgrant.Evaluate.Mutation.{
  MutationRequest, is_mint, existing_resource, new_mutation_authorization,
}
use trustgrant.Evaluate.Execution.{
  InMemoryExecutionState, ResourceKey, evaluation_request, quantity_of, resource_key, check_version,
  log,
}
use trustgrant.Evaluate.Execution.Run.{Apply}

module _ {T : Type 0} (grant : VerifiedTrustGrant) (request : MutationRequest)
    (apply : Apply T) where
  -- The closure panics, on a request that the grant authorizes, whose resource is at the version that
  -- it expects, and with the authorization as the last entry of the log.
  pub record ClosurePanics (s : InMemoryExecutionState) : Type 0 where
    pub evaluated : EvaluationRequest
    pub evaluates : evaluation_request s grant request ≡ some evaluated
    pub authorized : Authorizes grant evaluated
    pub key : Option ResourceKey
    pub keyed : traverse_option resource_key (existing_resource request) ≡ ok key
    pub version : check_version s (existing_resource request) key ≡ ok none
    pub panics :
        let a = new_mutation_authorization request (evaluate grant evaluated) in
        apply (log a s) a ≡ none

  -- What can make a call panic.
  abbrev pub Panics : InMemoryExecutionState → Type 0
  Panics s =
      (Assoc.get request.intent_id s.processed ≡ none)
      × (((is_mint request ≡ true) × (quantity_of request.request.mint_context ≡ 0))
          ⊎ ClosurePanics s)
