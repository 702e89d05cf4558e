-- ===== src/Evaluate/Execution/Replay.antt =====
-- execution.rs: an applied mutation is not applied again.
use trustgrant.Prelude.{
  true, Option, some, List, [], ◌∷◌, ◌≡◌, refl, ap, inl, inr, Bool-cases, Result, ok, err,
  >>=-eq-ok, Result-cases, subst, eq_list_refl, beq_refl, eqb, nat_eq, list_eq, option_eq,
  unwrap_or,
}
use trustgrant.Prelude.Assoc
use trustgrant.Prelude.Assoc.{get-insert_self}
use trustgrant.Domain.Names.{custom_operation_name_eq, resource_type_name_eq}
use trustgrant.Domain.Names.Kinds.{same_kind_refl}
use trustgrant.Domain.Authority.{authority_id_eq}
use trustgrant.Verify.Grant.{VerifiedTrustGrant}
use trustgrant.Evaluate.Context.{SelectorContext, SelectorValues}
use trustgrant.Evaluate.Request.{
  RequestedOperation, capability, custom, recognize, mint, ResourceBinding, existing, mint_from,
  intent_id_eq, EvaluationRequest, with_quantity,
}
use trustgrant.Evaluate.Engine.Inner.{evaluate, evaluate_inner, evaluate_checks}
use trustgrant.Evaluate.Mutation.{
  MutationRequest, MutationAuthorization, new_mutation_authorization, authorization_matches,
  same_operation, same_binding, same_entries, same_context, same_mutation_intent, is_mint,
}
use trustgrant.Evaluate.Execution.{
  InMemoryExecutionError, InMemoryExecutionState, evaluation_request, quantity_of, ResourceKey,
}
use trustgrant.Evaluate.Execution.Run.{
  applied, duplicate, returned, Apply, settle, commit, authorize_and_execute,
}
use trustgrant.Evaluate.Execution.Parts.{applied-parts}

same_operation_refl : (op : RequestedOperation) → same_operation op op ≡ true
unfolding same_operation
same_operation_refl (capability recognize) = refl
same_operation_refl (capability mint) = refl
same_operation_refl (custom name) = beq_refl name

same_binding_refl : (b : ResourceBinding) → same_binding b b ≡ true
unfolding same_binding
same_binding_refl (existing r) =
    rw
      (
        beq_refl r.origin_authority,
        beq_refl r.resource_type,
        beq_refl r.resource_id,
        beq_refl r.expected_version,
      )
      refl
same_binding_refl (mint_from t) = rw (beq_refl t.origin_authority, beq_refl t.template_id) refl

same_entries_refl : (es : List SelectorValues) → same_entries es es ≡ true
unfolding same_entries
same_entries_refl [] = refl
same_entries_refl (e ∷ es) =
    rw (same_kind_refl e.kind, eq_list_refl e.values) (same_entries_refl es)

same_context_refl : (c : SelectorContext) → same_context c c ≡ true
unfolding same_context
same_context_refl c = rw (same_entries_refl c.entries) (beq_refl c.kind_index)

pub same_mutation_intent_refl : (r : EvaluationRequest) → same_mutation_intent r r ≡ true
unfolding same_mutation_intent
same_mutation_intent_refl r =
    rw
      (
        same_operation_refl r.operation,
        same_binding_refl r.resource_binding,
        beq_refl r.target_authority,
        same_context_refl r.target_context,
        beq_refl r.audience_authority,
        same_context_refl r.audience_context,
        same_context_refl r.audience_principal_context,
        beq_refl r.resource.resource_type,
      )
      (same_context_refl r.resource.selectors)

-- The value of a result, or one in its place.
abbrev ok_or_else {ℓ} : {E : Type 0} {A : Type ℓ} → A → Result E A → A
ok_or_else a (ok b) = b
ok_or_else a (err e) = a

module _ (grant : VerifiedTrustGrant) (request : MutationRequest) where
  -- The request that was evaluated has the same intent as the one that came.
  pub evaluated-same :
      (s : InMemoryExecutionState) (r : EvaluationRequest)
      → evaluation_request s grant request ≡ some r
      → same_mutation_intent r request.request ≡ true
  unfolding evaluation_request same_mutation_intent with_quantity
  evaluated-same s r h = elim (Bool-cases (is_mint request)) [
    | inl e ↦ elim (Bool-cases (eqb (quantity_of request.request.mint_context) 0)) [
      | inl z ↦ cc (rw (e, z) at h)
      | inr z ↦
          subst (λ x. same_mutation_intent x request.request ≡ true)
            (ap (unwrap_or r) (rw (e, z) at h)) (same_mutation_intent_refl request.request)
    ]
    | inr e ↦
        subst (λ x. same_mutation_intent x request.request ≡ true) (ap (unwrap_or r) (rw e at h))
          (same_mutation_intent_refl request.request)
  ]

  pub outcome-request :
      (r : EvaluationRequest)
      → (new_mutation_authorization request (evaluate grant r)).outcome.request ≡ r
  unfolding evaluate
  outcome-request r = refl

  outcome-trustgrant_id :
      (r : EvaluationRequest)
      → (new_mutation_authorization request (evaluate grant r)).outcome.decision.trustgrant_id
        ≡ grant.document.lineage.trustgrant_id
  unfolding evaluate evaluate_inner
  outcome-trustgrant_id r = elim (Result-cases (evaluate_checks grant r)) [
    | inl e ↦ rw e refl
    | inr (reason, e) ↦ rw e refl
  ]

  applied-matches :
      (s : InMemoryExecutionState) (r : EvaluationRequest)
      → evaluation_request s grant request ≡ some r
      → authorization_matches
          (new_mutation_authorization request (evaluate grant r))
          grant.document.lineage.trustgrant_id
          request
        ≡ true
  unfolding authorization_matches
  applied-matches s r h =
      rw (outcome-trustgrant_id r, beq_refl grant.document.lineage.trustgrant_id, outcome-request r)
        (evaluated-same s r h)

module _ {T : Type 0} (grant : VerifiedTrustGrant) (request : MutationRequest)
    (apply : Apply T) where
  -- A committed transaction has recorded its authorization under the intent.
  commit-processed :
      (r : EvaluationRequest) (key : Option ResourceKey) (a : MutationAuthorization)
      (m : Result InMemoryExecutionError (T × InMemoryExecutionState)) (t : InMemoryExecutionState)
      (v : T)
      → commit grant request apply r key a m ≡ ok (v, t)
      → Assoc.get request.intent_id t.processed ≡ some a
  unfolding commit
  commit-processed r key a m t v h =
      let ((w, u), applies, h₁) = >>=-eq-ok m _ h in
      let (u', settles, h₂) = >>=-eq-ok (settle grant request apply r key u) _ h₁ in
      let same : Assoc.insert request.intent_id a u'.processed ≡ t.processed =
        ap (λ x. (ok_or_else {A = T × InMemoryExecutionState} (w, u) x).1.processed) h₂ in
      subst (λ m. Assoc.get request.intent_id m ≡ some a) same
        (get-insert_self request.intent_id a u'.processed)

  -- A mutation that was applied is not applied again: the same call on the state that it left
  -- returns the stored authorization as a duplicate, whatever `apply` is given, and changes nothing.
  pub authorize_and_execute-replay :
      (s t : InMemoryExecutionState) (a : MutationAuthorization) (v : T) (again : Apply T)
      → authorize_and_execute grant request apply s ≡ returned (ok (applied a v)) t
      → authorize_and_execute grant request again t ≡ returned (ok (duplicate a)) t
  unfolding authorize_and_execute
  authorize_and_execute-replay s t a v again h =
      let parts = applied-parts grant request apply s t a v h in
      let stored = commit-processed parts.evaluated parts.key a parts.called t v parts.committed in
      let matches : authorization_matches a grant.document.lineage.trustgrant_id request ≡ true =
        rw parts.authorization (applied-matches grant request s parts.evaluated parts.evaluates) in
      rw (stored, matches) refl
