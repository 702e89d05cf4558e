-- ===== src/Evaluate/Engine/Scopes.antt =====
-- engine.rs: what each step of the evaluation requires, stated apart from the code.
use trustgrant.Prelude.{
  Bool, true, false, ◌&&◌, not, List, [], ◌∷◌, Option, none, some, ◌≡◌, refl, ◌↔◌, ◌⊎◌, inl, inr,
  arith, ◌==◌, list_eq, nat_eq, Some, any, any_iff, find, if◌then◌else◌, ok, err, then_iff,
  find_iff, First,
}
use trustgrant.Domain.Authority.{same_authority_iff, authority_id_eq}
use trustgrant.Document.Model.{ValidatedSelector, ValidatedScope, ValidatedAudienceEntry}
use trustgrant.Evaluate.Context.{SelectorContext}
use trustgrant.Evaluate.Request.{EvaluationRequest}
use trustgrant.Evaluate.Decision.{EvaluationDenyReason, audience_not_allowed}
use trustgrant.Evaluate.Engine.{
  Evaluation, evaluate_principal_scope, selector_matches_context, evaluate_scope_with_reasons,
  evaluate_audience_entry, evaluate_audience,
}
use trustgrant.Evaluate.Engine.Matching.{Covers, selector_matches_context_iff}

-- Everything or an allowed selector covers the context, and no denied one does.
abbrev pub Permits :
    Bool → List ValidatedSelector → List ValidatedSelector → SelectorContext → Type 0
Permits all allow deny context =
    ((all ≡ true) ⊎ Some (Covers context) allow) × (¬ Some (Covers context) deny)

covered_iff :
    (selectors : List ValidatedSelector) (context : SelectorContext)
    → (any (λ s. selector_matches_context s context) selectors ≡ true)
      ↔ Some (Covers context) selectors
covered_iff selectors context =
    any_iff (Covers context) _ (λ s. selector_matches_context_iff s context) selectors

scope_shape :
    (all allowed denied : Bool) (no_allow no_deny : EvaluationDenyReason)
    → ◌≡◌ {A = Evaluation}
        (if not all && not allowed then err no_allow else if denied then err no_deny else ok tt)
        (ok tt)
      ↔ (((all ≡ true) ⊎ (allowed ≡ true)) × (denied ≡ false))
scope_shape all allowed denied no_allow no_deny = ground arith

not_true_iff : (b : Bool) → (b ≡ false) ↔ (¬ (b ≡ true))
not_true_iff true = (λ h _. cc, λ h. absurd (h refl))
not_true_iff false = (λ _ h. cc, λ _. refl)

-- A scope is passed exactly when it takes all or one of its allowing selectors covers the context,
-- and none of its denying selectors does.
pub evaluate_scope_iff :
    (all : Bool) (allow deny : List ValidatedSelector) (context : SelectorContext)
    (denied not_allowed : EvaluationDenyReason)
    → (evaluate_scope_with_reasons all allow deny context denied not_allowed ≡ ok tt)
      ↔ Permits all allow deny context
unfolding evaluate_scope_with_reasons
evaluate_scope_iff all allow deny context denied not_allowed =
    let (to, from) = scope_shape all _ _ not_allowed denied in
    let (allows, allows') = covered_iff allow context in
    let (denies, denies') = covered_iff deny context in
    let (is_false, is_false') = not_true_iff (any (λ s. selector_matches_context s context) deny) in
    (
      λ h.
          let (a, d) = to h in
          (elim a [ inl e ↦ inl e | inr e ↦ inr (allows e) ], λ s. is_false d (denies' s)),
      λ (a, d).
          from (elim a [ inl e ↦ inl e | inr s ↦ inr (allows' s) ], is_false' (λ e. d (denies e))),
    )

-- A principal scope, where there is one, permits the principal.
abbrev pub PermitsPrincipal : Option ValidatedScope → SelectorContext → Type 0
PermitsPrincipal none context = Unit
PermitsPrincipal (some s) context = Permits s.all s.allow s.deny context

abbrev pub EntryPermits : ValidatedAudienceEntry → EvaluationRequest → Type 0
EntryPermits e r =
    Permits e.scope.all e.scope.allow e.scope.deny r.audience_context
    × PermitsPrincipal e.principal_scope r.audience_principal_context

principal_iff :
    (scope : Option ValidatedScope) (context : SelectorContext)
    → (evaluate_principal_scope scope context ≡ ok tt) ↔ PermitsPrincipal scope context
principal_iff none context = (λ _. tt, λ _. refl)
principal_iff (some s) context = evaluate_scope_iff s.all s.allow s.deny context _ _

entry_iff :
    (e : ValidatedAudienceEntry) (r : EvaluationRequest)
    → (evaluate_audience_entry e r ≡ ok tt) ↔ EntryPermits e r
unfolding evaluate_audience_entry
entry_iff e r =
    let (to, from) =
      then_iff _ (evaluate_principal_scope e.principal_scope r.audience_principal_context) in
    let (scope, scope') =
      evaluate_scope_iff e.scope.all e.scope.allow e.scope.deny r.audience_context _ _ in
    let (principal, principal') = principal_iff e.principal_scope r.audience_principal_context in
    (λ h. let (a, b) = to h in (scope a, principal b), λ (a, b). from (scope' a, principal' b))

-- No audience is named, or the first entry for the requester permits it.
abbrev pub AudiencePermits : List ValidatedAudienceEntry → EvaluationRequest → Type 0
AudiencePermits [] r = Unit
AudiencePermits (x ∷ xs) r =
    (e : ValidatedAudienceEntry) × First
      (λ (y : ValidatedAudienceEntry). y.authority_id ≡ r.audience_authority) (x ∷ xs) e
    × EntryPermits e r

found_iff :
    (found : Option ValidatedAudienceEntry) (r : EvaluationRequest)
    → (elim found as (λ _. Evaluation) [
      | none ↦ err audience_not_allowed
      | some e ↦ evaluate_audience_entry e r
    ]
        ≡ ok tt)
      ↔ ((e : ValidatedAudienceEntry) × (found ≡ some e) × EntryPermits e r)
found_iff none r = (λ h. cc, λ (e, h, k). cc)
found_iff (some e) r = (
  λ h. (e, refl, (entry_iff e r).0 h),
  λ (e', h, k). (entry_iff e r).1 (let same : e' ≡ e = cc in rw same at k),
)

pub evaluate_audience_iff :
    (scope : List ValidatedAudienceEntry) (r : EvaluationRequest)
    → (evaluate_audience scope r ≡ ok tt) ↔ AudiencePermits scope r
unfolding evaluate_audience
evaluate_audience_iff [] r = (λ _. tt, λ _. refl)
evaluate_audience_iff (x ∷ xs) r =
    let (to, from) =
      found_iff
        (find (λ (e : ValidatedAudienceEntry). e.authority_id == r.audience_authority) (x ∷ xs))
        r in
    let first =
      find_iff (λ (y : ValidatedAudienceEntry). y.authority_id ≡ r.audience_authority)
        (λ (y : ValidatedAudienceEntry). y.authority_id == r.audience_authority)
        (λ y. same_authority_iff y.authority_id r.audience_authority) (x ∷ xs) in
    (λ h. let (e, f, k) = to h in (e, (first e).0 f, k), λ (e, f, k). from (e, (first e).1 f, k))
