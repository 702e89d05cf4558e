-- ===== src/Evaluate/Engine/Limits.antt =====
-- engine.rs: what the operation scope and the minting limits require, stated apart from the code.
use trustgrant.Prelude.{
  ℕ, ◌+◌, ◌≤◌, true, false, List, Option, none, some, ◌≡◌, refl, ◌↔◌, ◌⊎◌, inl, inr, arith,
  Bool-cases, list_eq, nat_eq, eq_list_iff, Some, any_iff, is_empty, ok, then_iff, ltb,
}
use trustgrant.Prelude.Text.{Text}
use trustgrant.Domain.Names.{OperationName}
use trustgrant.Document.Model.{ValidatedOperationScope, ValidatedMintingConstraints}
use trustgrant.Evaluate.Context.{SelectorContext}
use trustgrant.Evaluate.Request.{
  RequestedOperation, capability, custom, recognize, mint, MintContext, EvaluationRequest,
  is_mint_operation,
}
use trustgrant.Evaluate.Engine.{
  is_operation_allowed, requested_name, lists, saturating_add, check_max_total, check_max_per_user,
  evaluate_minting_constraints, u64_max, check_mint_limits,
}

abbrev pub IsListed : List OperationName → Text → Type 0
IsListed names requested = Some (λ (n : OperationName). n.as_str ≡ requested) names

lists_iff :
    (names : List OperationName) (requested : Text)
    → (lists names requested ≡ true) ↔ IsListed names requested
lists_iff names requested =
    any_iff (λ (n : OperationName). n.as_str ≡ requested) _ (λ n. eq_list_iff n.as_str requested)
      names

-- Without an operation scope only recognition is granted.
abbrev pub OperationPermits : Option ValidatedOperationScope → RequestedOperation → Type 0
OperationPermits none op = op ≡ capability recognize
OperationPermits (some s) op =
    IsListed s.allow (requested_name op) × (¬ IsListed s.deny (requested_name op))

pub is_operation_allowed_iff :
    (scope : Option ValidatedOperationScope) (op : RequestedOperation)
    → (is_operation_allowed scope op ≡ ok tt) ↔ OperationPermits scope op
unfolding is_operation_allowed
is_operation_allowed_iff none (capability recognize) = (λ _. refl, λ _. refl)
is_operation_allowed_iff none (capability mint) = (λ h. cc, λ h. cc)
is_operation_allowed_iff none (custom name) = (λ h. cc, λ h. cc)
is_operation_allowed_iff (some s) op =
    let (denied, denied') = lists_iff s.deny (requested_name op) in
    let (allowed, allowed') = lists_iff s.allow (requested_name op) in
    elim (Bool-cases (lists s.deny (requested_name op))) [
      | inl e ↦ rw e (λ h. cc, λ (a, d). absurd (d (denied e)))
      | inr e ↦ elim (Bool-cases (lists s.allow (requested_name op))) [
        | inl e' ↦ rw (e, e') (λ _. (allowed e', λ d. cc (denied' d)), λ _. refl)
        | inr e' ↦ rw (e, e') (λ h. cc, λ (a, d). cc (allowed' a))
      ]
    ]

-- The sum stays within the limit; a limit of the largest `u64` never stops anything.
abbrev pub Within : ℕ → ℕ → ℕ → Type 0
Within limit count quantity = (count + quantity ≤ limit) ⊎ (u64_max ≤ limit)

abbrev pub WithinTotal : Option ℕ → MintContext → Type 0
WithinTotal none c = Unit
WithinTotal (some limit) c = Within limit c.current_total_mints c.requested_quantity

abbrev pub WithinUser : Option ℕ → SelectorContext → MintContext → Type 0
WithinUser none principal c = Unit
WithinUser (some limit) principal c =
    (is_empty principal.entries ≡ false)
    × Within limit c.current_mints_for_audience c.requested_quantity

Within-iff :
    (limit count quantity : ℕ)
    → (ltb limit (saturating_add count quantity) ≡ false) ↔ Within limit count quantity
unfolding saturating_add
Within-iff limit count quantity = (λ h. ground arith, λ h. ground arith)

total_iff :
    (limit : Option ℕ) (c : MintContext) → (check_max_total limit c ≡ ok tt) ↔ WithinTotal limit c
unfolding check_max_total
total_iff none c = (λ _. tt, λ _. refl)
total_iff (some limit) c =
    let (to, from) = Within-iff limit c.current_total_mints c.requested_quantity in
    elim (Bool-cases (ltb limit (saturating_add c.current_total_mints c.requested_quantity))) [
      | inl e ↦ rw e (λ h. cc, λ w. cc (from w))
      | inr e ↦ rw e (λ _. to e, λ _. refl)
    ]

user_iff :
    (limit : Option ℕ) (principal : SelectorContext) (c : MintContext)
    → (check_max_per_user limit principal c ≡ ok tt) ↔ WithinUser limit principal c
unfolding check_max_per_user
user_iff none principal c = (λ _. tt, λ _. refl)
user_iff (some limit) principal c =
    let (to, from) = Within-iff limit c.current_mints_for_audience c.requested_quantity in
    elim (Bool-cases (is_empty principal.entries)) [
      | inl e ↦ rw e (λ h. cc, λ w. cc)
      | inr e ↦
          elim (Bool-cases
            (ltb limit (saturating_add c.current_mints_for_audience c.requested_quantity))) [
              | inl e' ↦ rw (e, e') (λ h. cc, λ w. cc (from w.1))
              | inr e' ↦ rw (e, e') (λ _. (refl, to e'), λ _. refl)
            ]
    ]

-- What the limits ask of a mint: without counters no limit may be set.
abbrev pub LimitsPermit :
    ValidatedMintingConstraints → SelectorContext → Option MintContext → Type 0
LimitsPermit limits principal none = (limits.max_total ≡ none) × (limits.max_per_user ≡ none)
LimitsPermit limits principal (some c) =
    WithinTotal limits.max_total c × WithinUser limits.max_per_user principal c

limits_iff :
    (limits : ValidatedMintingConstraints) (principal : SelectorContext) (c : Option MintContext)
    → (check_mint_limits limits principal c ≡ ok tt) ↔ LimitsPermit limits principal c
limits_iff limits principal none = (λ h. (ground arith, ground arith), λ (p, q). rw (p, q) refl)
limits_iff limits principal (some c) =
    let (to, from) =
      then_iff (check_max_total limits.max_total c)
        (check_max_per_user limits.max_per_user principal c) in
    let (total, total') = total_iff limits.max_total c in
    let (user, user') = user_iff limits.max_per_user principal c in
    (λ h. let (a, b) = to h in (total a, user b), λ (a, b). from (total' a, user' b))

-- Only a mint is limited.
abbrev pub MintPermits : ValidatedMintingConstraints → EvaluationRequest → Type 0
MintPermits limits r =
    (is_mint_operation r.operation ≡ false)
    ⊎ LimitsPermit limits r.audience_principal_context r.mint_context

-- The minting limits are passed exactly by a request that does not mint, and by a mint that stays
-- within the total limit and, for a named principal, within the limit for one; with a limit but no
-- counters a mint is denied, and a limit of the largest `u64` denies none. Without a limit a mint
-- passes also without a mint context, unlike in docs/TRUSTGRANT_V0_SPEC.md (§13 step 10).
pub evaluate_minting_constraints_iff :
    (limits : ValidatedMintingConstraints) (r : EvaluationRequest)
    → (evaluate_minting_constraints limits r ≡ ok tt) ↔ MintPermits limits r
unfolding evaluate_minting_constraints
evaluate_minting_constraints_iff limits r =
    let (to, from) = limits_iff limits r.audience_principal_context r.mint_context in
    elim (Bool-cases (is_mint_operation r.operation)) [
      | inl e ↦ rw e (λ h. inr (to h), elim [ inl h ↦ cc | inr h ↦ from h ])
      | inr e ↦ rw e (λ _. inl refl, λ _. refl)
    ]
