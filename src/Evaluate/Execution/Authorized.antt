-- ===== src/Evaluate/Execution/Authorized.antt =====
-- execution.rs: what is applied was authorized.
use trustgrant.Prelude.{true, ◌≡◌, sym, subst, ap, ◌∙◌, ok}
use trustgrant.Verify.Grant.{VerifiedTrustGrant}
use trustgrant.Evaluate.Authorization.{Authorizes, evaluate_iff}
use trustgrant.Evaluate.Mutation.{MutationRequest, MutationAuthorization, same_mutation_intent}
use trustgrant.Evaluate.Execution.{InMemoryExecutionState}
use trustgrant.Evaluate.Execution.Run.{applied, returned, Apply, authorize_and_execute}
use trustgrant.Evaluate.Execution.Parts.{applied-parts}
use trustgrant.Evaluate.Execution.Replay.{evaluated-same, outcome-request}

module _ {T : Type 0} (grant : VerifiedTrustGrant) (request : MutationRequest)
    (apply : Apply T) where
  -- The authorization of a call that is applied records a request that the grant authorizes and that
  -- has the intent of the call's own request.
  pub authorize_and_execute-Authorizes :
      (s t : InMemoryExecutionState) (a : MutationAuthorization) (v : T)
      → authorize_and_execute grant request apply s ≡ returned (ok (applied a v)) t
      → Authorizes grant a.outcome.request
        × (same_mutation_intent a.outcome.request request.request ≡ true)
  authorize_and_execute-Authorizes s t a v run =
      let parts = applied-parts grant request apply s t a v run in
      let recorded : a.outcome.request ≡ parts.evaluated =
        ap (λ (x : MutationAuthorization). x.outcome.request) parts.authorization
        ∙ outcome-request grant request parts.evaluated in
      (
        subst (λ r. Authorizes grant r) (sym recorded)
            ((evaluate_iff grant parts.evaluated).0 parts.allowed),
        subst (λ r. same_mutation_intent r request.request ≡ true) (sym recorded)
            (evaluated-same grant request s parts.evaluated parts.evaluates),
      )
