-- ===== src/Evaluate/Execution/Run.antt =====
-- execution.rs, `authorize_and_execute`.
use trustgrant.Prelude.{
  ℕ, not, Option, none, some, Result, ok, err, ◌>>=◌, if◌then◌else◌, traverse_option, eq_list,
  option_map,
}
use trustgrant.Prelude.Assoc
use trustgrant.Verify.Grant.{VerifiedTrustGrant}
use trustgrant.Evaluate.Request.{IntentId, intent_id_eq, EvaluationRequest}
use trustgrant.Evaluate.Decision.{is_allowed}
use trustgrant.Evaluate.Engine.Inner.{evaluate}
use trustgrant.Evaluate.Mutation.{
  MutationRequest, MutationAuthorization, new_mutation_authorization, authorization_matches,
  is_mint, existing_resource,
}
use trustgrant.Evaluate.Execution.{
  InMemoryExecutionError, InMemoryExecutionState, ResourceKey, resource_key, mint_total_key,
  mint_principal_key, evaluation_request, log, check_version, advance_mints, advance_version,
  quantity_of,
}

pub data AtomicExecutionResult (T : Type 0) : Type 0 where
  applied : MutationAuthorization → T → AtomicExecutionResult T
  denied : MutationAuthorization → AtomicExecutionResult T
  duplicate : MutationAuthorization → AtomicExecutionResult T
  stale : MutationAuthorization → (current_version : ℕ) → AtomicExecutionResult T
  intent_conflict : IntentId → AtomicExecutionResult T

-- How a call ends: with its result and the executor's state after it, or by a panic.
pub data Run (T : Type 0) : Type 0 where
  returned :
      Result InMemoryExecutionError (AtomicExecutionResult T) → InMemoryExecutionState → Run T
  panicked : Run T

-- The caller's closure: `none` is a panic in it.
abbrev pub Apply : Type 0 → Type 0
Apply T =
    InMemoryExecutionState
    → MutationAuthorization
    → Option (Result InMemoryExecutionError (T × InMemoryExecutionState))

module _ {T : Type 0} (grant : VerifiedTrustGrant) (request : MutationRequest)
    (apply : Apply T) where
  -- The counters or the version that the mutation moves on.
  unfoldable pub settle :
      EvaluationRequest
      → Option ResourceKey
      → InMemoryExecutionState
      → Result InMemoryExecutionError InMemoryExecutionState
  settle evaluated key s =
      if is_mint request
      then advance_mints (mint_total_key grant request) (mint_principal_key grant request)
          (quantity_of evaluated.mint_context) s
      else advance_version key s

  -- What follows the closure in the transaction.
  unfoldable pub commit :
      EvaluationRequest
      → Option ResourceKey
      → MutationAuthorization
      → Result InMemoryExecutionError (T × InMemoryExecutionState)
      → Result InMemoryExecutionError (T × InMemoryExecutionState)
  commit evaluated key authorization applies = do
    (value, t) ← applies
    t' ← settle evaluated key t
    ok (value, record t' { processed = Assoc.insert request.intent_id authorization t'.processed })

  unfoldable pub transact :
      EvaluationRequest
      → Option ResourceKey
      → MutationAuthorization
      → InMemoryExecutionState
      → Option (Result InMemoryExecutionError (T × InMemoryExecutionState))
  unfolding commit
  transact evaluated key authorization s =
      option_map (commit evaluated key authorization) (apply (log authorization s) authorization)

  abbrev pub finish :
      MutationAuthorization
      → InMemoryExecutionState
      → Option (Result InMemoryExecutionError (T × InMemoryExecutionState))
      → Run T
  finish authorization s none = panicked
  finish authorization s (some (err e)) = returned (err e) s
  finish authorization s (some (ok (value, t))) = returned (ok (applied authorization value)) t

  abbrev pub continue :
      EvaluationRequest
      → MutationAuthorization
      → InMemoryExecutionState
      → Option ResourceKey
      → Result InMemoryExecutionError (Option ℕ)
      → Run T
  continue evaluated authorization s key (err e) = returned (err e) s
  continue evaluated authorization s key (ok (some current)) =
      returned (ok (stale authorization current)) (log authorization s)
  continue evaluated authorization s key (ok none) =
      finish authorization s (transact evaluated key authorization s)

  abbrev pub with_key :
      EvaluationRequest
      → MutationAuthorization
      → InMemoryExecutionState
      → Result InMemoryExecutionError (Option ResourceKey)
      → Run T
  with_key evaluated authorization s (err e) = returned (err e) s
  with_key evaluated authorization s (ok key) =
      continue evaluated authorization s key (check_version s (existing_resource request) key)

  unfoldable pub execute_evaluated : EvaluationRequest → InMemoryExecutionState → Run T
  execute_evaluated evaluated s =
      let authorization = new_mutation_authorization request (evaluate grant evaluated) in
      if not (is_allowed authorization.outcome.decision)
      then returned (ok (denied authorization)) (log authorization s)
      else with_key evaluated authorization s
          (traverse_option resource_key (existing_resource request))

  abbrev pub replay : MutationAuthorization → AtomicExecutionResult T
  replay previous =
      if authorization_matches previous grant.document.lineage.trustgrant_id request
      then duplicate previous
      else intent_conflict request.intent_id

  abbrev pub by_request : InMemoryExecutionState → Option EvaluationRequest → Run T
  by_request s none = panicked
  by_request s (some evaluated) = execute_evaluated evaluated s

  abbrev pub by_processed : InMemoryExecutionState → Option MutationAuthorization → Run T
  by_processed s (some previous) = returned (ok (replay previous)) s
  by_processed s none = by_request s (evaluation_request s grant request)

  unfoldable pub authorize_and_execute : InMemoryExecutionState → Run T
  authorize_and_execute s = by_processed s (Assoc.get request.intent_id s.processed)

-- Opens all that a run computes with.
unfoldable pub execution : Unit {0}
unfolding authorize_and_execute execute_evaluated transact settle evaluation_request
    authorization_matches evaluate resource_key check_version traverse_option advance_mints
    advance_version mint_total_key mint_principal_key Assoc.get Assoc.insert eq_list
execution = tt
