-- ===== src/Evaluate/Engine/Matching.antt =====
-- engine.rs, `selector_matches_context`: when a selector matches a context.
use trustgrant.Prelude.{
  Bool, true, false, List, [], ◌∷◌, Option, none, some, ◌≡◌, refl, ◌↔◌, ◌⊎◌, inl, inr, Bool-cases,
  ◌==◌, list_eq, nat_eq, eq_list_iff, Some, any, any_iff, leb, length, if◌then◌else◌,
}
use trustgrant.Prelude.Text.{Text}
use trustgrant.Domain.Expression.{SelectorExpression, matches}
use trustgrant.Domain.Expression.Matching.{Says, matches_iff}
use trustgrant.Document.Model.{ValidatedSelector}
use trustgrant.Evaluate.Context.{SelectorContext, values_for_kind}
use trustgrant.Evaluate.Engine.{contains, collect_set, values_match, selector_matches_context}

abbrev pub Occurs : Text → List Text → Type 0
Occurs value vs = Some (λ v. v ≡ value) vs

contains_iff : (value : Text) (vs : List Text) → (contains value vs ≡ true) ↔ Occurs value vs
unfolding contains
contains_iff value vs = any_iff (λ v. v ≡ value) (λ v. v == value) (λ v. eq_list_iff v value) vs

-- The set holds the values of the list.
collect_set_sound :
    (value : Text) (vs : List Text) → Occurs value (collect_set vs) → Occurs value vs
unfolding collect_set
collect_set_sound value [] h = h
collect_set_sound value (v ∷ vs) h = elim (Bool-cases (contains v (collect_set vs))) [
  | inl old ↦ inr (collect_set_sound value vs (rw old at h))
  | inr new ↦ elim (rw new at h) [
    | inl e ↦ inl e
    | inr later ↦ inr (collect_set_sound value vs later)
  ]
]

collect_set_complete :
    (value : Text) (vs : List Text) → Occurs value vs → Occurs value (collect_set vs)
unfolding collect_set
collect_set_complete value [] h = h
collect_set_complete value (v ∷ vs) h = elim (Bool-cases (contains v (collect_set vs))) [
  | inl old ↦ rw old (elim h [
    | inl e ↦ rw e at ((contains_iff v (collect_set vs)).0 old)
    | inr later ↦ collect_set_complete value vs later
  ])
  | inr new ↦
      rw new (elim h [ inl e ↦ inl e | inr later ↦ inr (collect_set_complete value vs later) ])
]

set_contains_iff :
    (value : Text) (vs : List Text) → (contains value (collect_set vs) ≡ true) ↔ Occurs value vs
set_contains_iff value vs =
    let (to, from) = contains_iff value (collect_set vs) in
    (λ h. collect_set_sound value vs (to h), λ h. from (collect_set_complete value vs h))

-- The scan of few values and the set of many find the same.
pub values_match_iff :
    (values context_values : List Text)
    → (values_match values context_values ≡ true) ↔ Some (λ v. Occurs v context_values) values
unfolding values_match
values_match_iff values context_values = elim (Bool-cases (leb (length context_values) 8)) [
  | inl few ↦ rw few (
      any_iff (λ v. Occurs v context_values) _
        (λ v. any_iff (λ c. c ≡ v) (λ c. c == v) (λ c. eq_list_iff c v) context_values) values)
  | inr many ↦
      rw many
        (any_iff (λ v. Occurs v context_values) _ (λ v. set_contains_iff v context_values) values)
]

-- A value of the context is listed, or some expression holds of one.
abbrev pub Hits : ValidatedSelector → List Text → Type 0
Hits s vs =
    Some (λ v. Occurs v vs) s.values
    ⊎ Some (λ (e : SelectorExpression). Some (Says e.predicate e.argument) vs) s.expressions

-- When a selector covers a context.
abbrev pub Covers : SelectorContext → ValidatedSelector → Type 0
Covers context s =
    (s.all ≡ true) ⊎ ((vs : List Text) × (values_for_kind context s.kind ≡ some vs) × Hits s vs)

expressions_iff :
    (expressions : List SelectorExpression) (vs : List Text)
    → (any (λ e. any (λ v. matches e v) vs) expressions ≡ true)
      ↔ Some (λ (e : SelectorExpression). Some (Says e.predicate e.argument) vs) expressions
expressions_iff expressions vs =
    any_iff _ _ (λ e. any_iff (Says e.predicate e.argument) (λ v. matches e v) (matches_iff e) vs)
      expressions

Hits-iff :
    (s : ValidatedSelector) (vs : List Text)
    → ((if values_match s.values vs
          then true
          else any (λ e. any (λ v. matches e v) vs) s.expressions)
        ≡ true)
      ↔ Hits s vs
Hits-iff s vs = elim (Bool-cases (values_match s.values vs)) [
  | inl e ↦ rw e (λ _. inl ((values_match_iff s.values vs).0 e), λ _. refl)
  | inr e ↦ rw e (
    λ h. inr ((expressions_iff s.expressions vs).0 h),
    elim [
      | inl h ↦ cc ((values_match_iff s.values vs).1 h)
      | inr h ↦ (expressions_iff s.expressions vs).1 h
    ],
  )
]

by_values :
    (s : ValidatedSelector) (found : Option (List Text))
    → (elim found as (λ _. Bool) [
      | none ↦ false
      | some vs ↦
          if values_match s.values vs
          then true
          else any (λ e. any (λ v. matches e v) vs) s.expressions
    ]
        ≡ true)
      ↔ ((vs : List Text) × (found ≡ some vs) × Hits s vs)
by_values s none = (λ h. cc, λ (vs, e, h). cc)
by_values s (some ws) =
    let (to, from) = Hits-iff s ws in
    (λ h. (ws, refl, to h), λ (vs, e, h). from (let same : vs ≡ ws = cc in rw same at h))

-- A selector matches a context exactly when it covers all, or the context has values of its kind
-- and one of them is listed or satisfies an expression; the number of values does not matter.
pub selector_matches_context_iff :
    (s : ValidatedSelector) (context : SelectorContext)
    → (selector_matches_context s context ≡ true) ↔ Covers context s
unfolding selector_matches_context
selector_matches_context_iff s context = elim (Bool-cases s.all) [
  | inl e ↦ (λ _. inl e, λ _. rw (e, selector_matches_context))
  | inr e ↦
      let (to, from) = by_values s (values_for_kind context s.kind) in
      (λ h. inr (to (rw e at h)), elim [ inl h ↦ cc | inr h ↦ rw e (from h) ])
]
