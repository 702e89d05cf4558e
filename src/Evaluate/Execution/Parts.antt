-- ===== src/Evaluate/Execution/Parts.antt =====
-- execution.rs: what a call that ends in `Applied` has passed, and what any other call leaves.
use trustgrant.Prelude.{
  ℕ, true, Option, none, some, ◌≡◌, refl, sym, subst, inl, inr, arith, Bool-cases, Option-cases,
  Result, ok, err, traverse_option,
}
use trustgrant.Prelude.Assoc
use trustgrant.Verify.Grant.{VerifiedTrustGrant}
use trustgrant.Evaluate.Request.{intent_id_eq, EvaluationRequest}
use trustgrant.Evaluate.Decision.{is_allowed}
use trustgrant.Evaluate.Engine.Inner.{evaluate}
use trustgrant.Evaluate.Mutation.{
  MutationRequest, MutationAuthorization, new_mutation_authorization, existing_resource,
  authorization_matches,
}
use trustgrant.Evaluate.Execution.{
  InMemoryExecutionError, InMemoryExecutionState, ResourceKey, resource_key, evaluation_request,
  log, check_version,
}
use trustgrant.Evaluate.Execution.Run.{
  applied, denied, duplicate, stale, intent_conflict, Run, returned, panicked, Apply, commit,
  transact, execute_evaluated, authorize_and_execute, finish, continue, with_key, replay,
  by_request, by_processed,
}

-- What is left of the state by a call that applies nothing.
abbrev pub Unapplied : {T : Type 0} → InMemoryExecutionState → Run T → Type 0
Unapplied s (returned (err e) t) = t ≡ s
Unapplied s (returned (ok (applied a v)) t) = Unit
Unapplied s (returned (ok (denied a)) t) = t ≡ log a s
Unapplied s (returned (ok (duplicate a)) t) = t ≡ s
Unapplied s (returned (ok (stale a v)) t) = t ≡ log a s
Unapplied s (returned (ok (intent_conflict i)) t) = t ≡ s
Unapplied s panicked = Unit

module _ {T : Type 0} (grant : VerifiedTrustGrant) (request : MutationRequest)
    (apply : Apply T) where
  -- The tests that an applied call passed, and the transaction that it committed.
  pub record IsApplied (s : InMemoryExecutionState) (a : MutationAuthorization) (v : T)
      (t : InMemoryExecutionState) : Type 0 where
    pub evaluated : EvaluationRequest
    pub evaluates : evaluation_request s grant request ≡ some evaluated
    pub allowed : is_allowed (evaluate grant evaluated).decision ≡ true
    pub authorization : a ≡ new_mutation_authorization request (evaluate grant evaluated)
    pub key : Option ResourceKey
    pub keyed : traverse_option resource_key (existing_resource request) ≡ ok key
    pub version : check_version s (existing_resource request) key ≡ ok none
    pub called : Result InMemoryExecutionError (T × InMemoryExecutionState)
    pub applies : apply (log a s) a ≡ some called
    pub committed : commit grant request apply evaluated key a called ≡ ok (v, t)

  -- The result of a committed transaction, if there is one.
  abbrev Committed : Run T → MutationAuthorization → T → InMemoryExecutionState → Type 0
  Committed r a v t = r ≡ returned (ok (applied a v)) t

  finish-applied :
      (b a : MutationAuthorization) (s t : InMemoryExecutionState) (v : T)
      (m : Option (Result InMemoryExecutionError (T × InMemoryExecutionState)))
      → Committed (finish grant request apply b s m) a v t
      → (b ≡ a) × (m ≡ some (ok (v, t)))
  finish-applied b a s t v none h = cc
  finish-applied b a s t v (some (err e)) h = cc
  finish-applied b a s t v (some (ok (w, u))) h = (ground arith, ground arith)

  -- The closure returned, and what it returned was committed.
  transact-eq-some :
      (e : EvaluationRequest) (key : Option ResourceKey) (a : MutationAuthorization)
      (s t : InMemoryExecutionState) (v : T)
      → transact grant request apply e key a s ≡ some (ok (v, t))
      → (m : Result InMemoryExecutionError (T × InMemoryExecutionState)) × (apply (log a s) a
          ≡ some m)
        × (commit grant request apply e key a m ≡ ok (v, t))
  unfolding transact
  transact-eq-some e key a s t v h = elim (Option-cases (apply (log a s) a)) [
    | inl panics ↦ cc (rw panics at h)
    | inr (m, called) ↦
        let same : some (commit grant request apply e key a m) ≡ some (ok (v, t)) =
          rw called at h in
        (m, called, cc)
  ]

  continue-applied :
      (e : EvaluationRequest) (b a : MutationAuthorization) (s t : InMemoryExecutionState) (v : T)
      (key : Option ResourceKey) (m : Result InMemoryExecutionError (Option ℕ))
      → Committed (continue grant request apply e b s key m) a v t
      → (b ≡ a) × (m ≡ ok none) × (transact grant request apply e key b s ≡ some (ok (v, t)))
  continue-applied e b a s t v key (err x) h = cc
  continue-applied e b a s t v key (ok (some n)) h = cc
  continue-applied e b a s t v key (ok none) h =
      let (same, m) = finish-applied b a s t v _ h in (same, refl, m)

  key-applied :
      (e : EvaluationRequest) (b a : MutationAuthorization) (s t : InMemoryExecutionState) (v : T)
      (m : Result InMemoryExecutionError (Option ResourceKey))
      → Committed (with_key grant request apply e b s m) a v t
      → (key : Option ResourceKey) × (m ≡ ok key)
        × (b ≡ a)
        × (check_version s (existing_resource request) key ≡ ok none)
        × (transact grant request apply e key b s ≡ some (ok (v, t)))
  key-applied e b a s t v (err x) h = cc
  key-applied e b a s t v (ok key) h =
      let (same, m, done) = continue-applied e b a s t v key _ h in (key, refl, same, m, done)

  execute_evaluated-IsApplied :
      (e : EvaluationRequest) (a : MutationAuthorization) (s t : InMemoryExecutionState) (v : T)
      → evaluation_request s grant request ≡ some e
      → Committed (execute_evaluated grant request apply e s) a v t
      → IsApplied s a v t
  unfolding execute_evaluated
  execute_evaluated-IsApplied e a s t v found h =
      elim (Bool-cases (is_allowed (evaluate grant e).decision)) [
        | inr no_grant ↦ cc (rw no_grant at h)
        | inl granted ↦
            let (key, keyed, same, version, done) =
              key-applied e (new_mutation_authorization request (evaluate grant e)) a s t v _
                (rw granted at h) in
            let (m, called, committed) =
              transact-eq-some e key a s t v (
                subst (λ x. transact grant request apply e key x s ≡ some (ok (v, t))) same done) in
            record {
              evaluated = e;
              evaluates = found;
              allowed = granted;
              authorization = sym same;
              key = key;
              keyed = keyed;
              version = version;
              called = m;
              applies = called;
              committed = committed;
            }
      ]

  replay-ne-applied :
      (previous : MutationAuthorization) (s : InMemoryExecutionState) (a : MutationAuthorization)
      (v : T) (t : InMemoryExecutionState)
      → ¬ Committed (returned (ok (replay grant request apply previous)) s) a v t
  replay-ne-applied previous s a v t h =
      elim (Bool-cases
        (authorization_matches previous grant.document.lineage.trustgrant_id request)) [
          | inl e ↦ cc (rw e at h)
          | inr e ↦ cc (rw e at h)
        ]

  by_request-IsApplied :
      (s t : InMemoryExecutionState) (a : MutationAuthorization) (v : T)
      (found : Option EvaluationRequest)
      → evaluation_request s grant request ≡ found
      → Committed (by_request grant request apply s found) a v t
      → IsApplied s a v t
  by_request-IsApplied s t a v none e h = cc
  by_request-IsApplied s t a v (some evaluated) e h =
      execute_evaluated-IsApplied evaluated a s t v e h

  by_processed-IsApplied :
      (s t : InMemoryExecutionState) (a : MutationAuthorization) (v : T)
      (found : Option MutationAuthorization)
      → Committed (by_processed grant request apply s found) a v t
      → IsApplied s a v t
  by_processed-IsApplied s t a v (some previous) h = absurd (replay-ne-applied previous s a v t h)
  by_processed-IsApplied s t a v none h =
      by_request-IsApplied s t a v (evaluation_request s grant request) refl h

  pub applied-parts :
      (s t : InMemoryExecutionState) (a : MutationAuthorization) (v : T)
      → authorize_and_execute grant request apply s ≡ returned (ok (applied a v)) t
      → IsApplied s a v t
  unfolding authorize_and_execute
  applied-parts s t a v h =
      by_processed-IsApplied s t a v (Assoc.get request.intent_id s.processed) h

  finish-Unapplied :
      (b : MutationAuthorization) (s : InMemoryExecutionState)
      (m : Option (Result InMemoryExecutionError (T × InMemoryExecutionState)))
      → Unapplied s (finish grant request apply b s m)
  finish-Unapplied b s none = tt
  finish-Unapplied b s (some (err e)) = refl
  finish-Unapplied b s (some (ok (v, t))) = tt

  continue-Unapplied :
      (e : EvaluationRequest) (b : MutationAuthorization) (s : InMemoryExecutionState)
      (key : Option ResourceKey) (m : Result InMemoryExecutionError (Option ℕ))
      → Unapplied s (continue grant request apply e b s key m)
  continue-Unapplied e b s key (err x) = refl
  continue-Unapplied e b s key (ok (some n)) = refl
  continue-Unapplied e b s key (ok none) = finish-Unapplied b s _

  key-Unapplied :
      (e : EvaluationRequest) (b : MutationAuthorization) (s : InMemoryExecutionState)
      (m : Result InMemoryExecutionError (Option ResourceKey))
      → Unapplied s (with_key grant request apply e b s m)
  key-Unapplied e b s (err x) = refl
  key-Unapplied e b s (ok key) = continue-Unapplied e b s key _

  evaluated-Unapplied :
      (e : EvaluationRequest) (s : InMemoryExecutionState)
      → Unapplied s (execute_evaluated grant request apply e s)
  unfolding execute_evaluated
  evaluated-Unapplied e s = elim (Bool-cases (is_allowed (evaluate grant e).decision)) [
    | inl granted ↦ rw granted (key-Unapplied e _ s _)
    | inr refused ↦ rw refused refl
  ]

  replay-Unapplied :
      (s : InMemoryExecutionState) (previous : MutationAuthorization)
      → Unapplied s (returned (ok (replay grant request apply previous)) s)
  replay-Unapplied s previous =
      elim (Bool-cases
        (authorization_matches previous grant.document.lineage.trustgrant_id request)) [
          | inl e ↦ rw e refl
          | inr e ↦ rw e refl
        ]

  request-Unapplied :
      (s : InMemoryExecutionState) (found : Option EvaluationRequest)
      → Unapplied s (by_request grant request apply s found)
  request-Unapplied s none = tt
  request-Unapplied s (some evaluated) = evaluated-Unapplied evaluated s

  processed-Unapplied :
      (s : InMemoryExecutionState) (found : Option MutationAuthorization)
      → Unapplied s (by_processed grant request apply s found)
  processed-Unapplied s none = request-Unapplied s (evaluation_request s grant request)
  processed-Unapplied s (some previous) = replay-Unapplied s previous

  -- A call that is not applied leaves the state as it was, but for an entry in the audit log after
  -- a denial or a stale version; a call that fails leaves it exactly as it was.
  pub authorize_and_execute-Unapplied :
      (s : InMemoryExecutionState) → Unapplied s (authorize_and_execute grant request apply s)
  unfolding authorize_and_execute
  authorize_and_execute-Unapplied s =
      processed-Unapplied s (Assoc.get request.intent_id s.processed)
