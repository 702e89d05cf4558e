-- ===== src/Tests/Executor.antt =====
-- The grant and the executor on the player's requests.
use trustgrant.Prelude.{ℕ, true, Option, none, some, [], ◌∷◌, ◌≡◌, refl, ap, ok, err, Result}
use trustgrant.Prelude.Assoc
use trustgrant.Prelude.Text.{codes}
use trustgrant.Domain.Names.{resource_type_name_eq}
use trustgrant.Verify.Grant.{VerifiedTrustGrant}
use trustgrant.Evaluate.Decision.{is_allowed}
use trustgrant.Evaluate.Engine.Inner.{evaluate}
use trustgrant.Evaluate.Authorization.{Authorizes, evaluate_iff}
use trustgrant.Evaluate.Mutation.{
  same_mutation_intent, MutationAuthorization, new_mutation_authorization,
}
use trustgrant.Evaluate.Execution.{
  InMemoryExecutionError, InMemoryExecutionState, new_executor, counter_overflow,
}
use trustgrant.Evaluate.Execution.Run.{
  applied, duplicate, Run, returned, panicked, Apply, authorize_and_execute, execution,
}
use trustgrant.Evaluate.Execution.Parts.{Unapplied, authorize_and_execute-Unapplied}
use trustgrant.Evaluate.Execution.Replay.{authorize_and_execute-replay}
use trustgrant.Evaluate.Execution.Counters.{LeavesCounters}
use trustgrant.Evaluate.Execution.Limits.{KeepsLimits}
use trustgrant.Evaluate.Execution.Limits.Calls.{
  Reaches, start, called, new_executor-KeepsLimits, authorize_and_execute-KeepsLimits,
}
use trustgrant.Evaluate.Execution.Versions.{
  LeavesVersions, IsAdvanced, authorize_and_execute-IsAdvanced,
}
use trustgrant.Evaluate.Execution.Authorized.{authorize_and_execute-Authorizes}
use trustgrant.Evaluate.Execution.Panics.{Panics}
use trustgrant.Tests.Fixture.{grant, studio, item}
use trustgrant.Tests.Requests.{mint_items, recognize_sword, sword}

-- A caller's function that does nothing, one that fails, and one that panics.
abbrev keep : Apply ℕ
keep u a = some (ok (0, u))

abbrev fail : Apply ℕ
fail u a = some (err counter_overflow)

abbrev explode : Apply ℕ
explode u a = none

kept-LeavesCounters : LeavesCounters keep
kept-LeavesCounters u v a x h =
    (ap (λ r. (state_of u r).total_mints) h, ap (λ r. (state_of u r).mints_for_principal) h)
  where
    state_of :
        InMemoryExecutionState
        → Option (Result InMemoryExecutionError (ℕ × InMemoryExecutionState))
        → InMemoryExecutionState
    state_of d (some (ok (y, t))) = t
    state_of d m = d

kept-LeavesVersions : LeavesVersions keep
kept-LeavesVersions u v a x h = ap (λ r. (state_of u r).resource_versions) h
  where
    state_of :
        InMemoryExecutionState
        → Option (Result InMemoryExecutionError (ℕ × InMemoryExecutionState))
        → InMemoryExecutionState
    state_of d (some (ok (y, t))) = t
    state_of d m = d

-- The state that a run leaves, and the authorization that it applied.
abbrev left_by : Run ℕ → InMemoryExecutionState
left_by (returned r t) = t
left_by panicked = new_executor

abbrev applied_by : Run ℕ → Option MutationAuthorization
applied_by (returned (ok (applied a v)) t) = some a
applied_by r = none

abbrev permission : MutationAuthorization → Option MutationAuthorization → MutationAuthorization
permission d none = d
permission d (some a) = a

abbrev first_run : Run ℕ
first_run = authorize_and_execute grant mint_items keep new_executor

abbrev after_mint : InMemoryExecutionState
after_mint = left_by first_run

abbrev mint_permission : MutationAuthorization
mint_permission =
    permission (new_mutation_authorization mint_items (evaluate grant mint_items.request))
      (applied_by first_run)

first_run_test :
    authorize_and_execute grant mint_items keep new_executor
    ≡ returned (ok (applied mint_permission 0)) after_mint
unfolding execution grant
first_run_test = refl

allowed_test : is_allowed (evaluate grant recognize_sword.request).decision ≡ true
unfolding evaluate grant Assoc.get
allowed_test = refl

evaluate_iff_example : Authorizes grant recognize_sword.request
evaluate_iff_example = (evaluate_iff grant recognize_sword.request).0 allowed_test

authorize_and_execute-replay_example :
    authorize_and_execute grant mint_items fail after_mint
    ≡ returned (ok (duplicate mint_permission)) after_mint
authorize_and_execute-replay_example =
    authorize_and_execute-replay grant mint_items keep new_executor after_mint mint_permission 0
      fail first_run_test

authorize_and_execute-Unapplied_example :
    Unapplied after_mint (authorize_and_execute grant mint_items fail after_mint)
authorize_and_execute-Unapplied_example =
    authorize_and_execute-Unapplied grant mint_items fail after_mint

-- The grants with its resource scope are known.
abbrev IsGrant : VerifiedTrustGrant → Type 0
IsGrant h = h.document.resource_scope ≡ grant.document.resource_scope

Reaches-after_mint : Reaches ℕ IsGrant new_executor after_mint
Reaches-after_mint =
    called new_executor after_mint grant mint_items keep (ok (applied mint_permission 0)) refl
      kept-LeavesCounters start first_run_test

new_executor-KeepsLimits_example : KeepsLimits grant after_mint
new_executor-KeepsLimits_example =
    new_executor-KeepsLimits grant after_mint (λ h known _. known) Reaches-after_mint

authorize_and_execute-KeepsLimits_example : KeepsLimits grant after_mint
authorize_and_execute-KeepsLimits_example =
    authorize_and_execute-KeepsLimits grant grant mint_items keep (λ _. refl) kept-LeavesCounters
      new_executor (ok (applied mint_permission 0)) after_mint first_run_test
      (new_executor-KeepsLimits {T = ℕ} {Known = IsGrant} grant new_executor (λ h known _. known)
        start)

-- The sword is registered at version four, which the request expects.
abbrev with_sword : InMemoryExecutionState
with_sword = record new_executor {
  resource_versions =
      (record { origin_authority = studio; resource_type = item; resource_id = codes "sword" }, 4)
      ∷ [];
}

abbrev second_run : Run ℕ
second_run = authorize_and_execute grant recognize_sword keep with_sword

abbrev after_sword : InMemoryExecutionState
after_sword = left_by second_run

abbrev sword_permission : MutationAuthorization
sword_permission =
    permission (new_mutation_authorization recognize_sword (evaluate grant recognize_sword.request))
      (applied_by second_run)

second_run_test :
    authorize_and_execute grant recognize_sword keep with_sword
    ≡ returned (ok (applied sword_permission 0)) after_sword
unfolding execution grant
second_run_test = refl

authorize_and_execute-IsAdvanced_example : IsAdvanced sword with_sword after_sword
authorize_and_execute-IsAdvanced_example =
    authorize_and_execute-IsAdvanced grant recognize_sword keep sword with_sword after_sword
      sword_permission 0 kept-LeavesVersions refl refl second_run_test

authorize_and_execute-Authorizes_example :
    Authorizes grant mint_permission.outcome.request
    × (same_mutation_intent mint_permission.outcome.request mint_items.request ≡ true)
authorize_and_execute-Authorizes_example =
    authorize_and_execute-Authorizes grant mint_items keep new_executor after_mint mint_permission 0
      first_run_test
