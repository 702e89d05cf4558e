-- ===== src/Domain/Expression/Matching.antt =====
-- selector_expression.rs: what each predicate says of a text.
use trustgrant.Prelude.{
  true, [], ◌∷◌, ◌++◌, ◌≡◌, refl, ap, sym, ◌∙◌, ◌↔◌, inl, inr, eqb, eqb_iff, Bool-cases,
  and-eq-true, eq_list_iff, nat_eq,
}
use mathlib.Core.List.{reverse, reverse-append, reverse-reverse}
use trustgrant.Prelude.Text.{Text, starts_with_text, ends_with_text, contains_text}
use trustgrant.Domain.Expression.{
  SelectorPredicate, equals, starts_with, ends_with, contains, SelectorExpression, matches,
}

starts_with_text_sound :
    (t s : Text) → starts_with_text t s ≡ true → (rest : Text) × (s ≡ t ++ rest)
unfolding starts_with_text
starts_with_text_sound [] s h = (s, refl)
starts_with_text_sound (c ∷ t) [] h = cc
starts_with_text_sound (c ∷ t) (d ∷ s) h =
    let (here, later) = (and-eq-true (eqb c d) (starts_with_text t s)).0 h in
    let (rest, e) = starts_with_text_sound t s later in
    let same : c ≡ d = (eqb_iff c d).0 here in (rest, cc)

starts_with_text_complete : (t rest : Text) → starts_with_text t (t ++ rest) ≡ true
unfolding starts_with_text
starts_with_text_complete [] rest = refl
starts_with_text_complete (c ∷ t) rest =
    rw ((eqb_iff c c).1 refl) (starts_with_text_complete t rest)

ends_with_text_sound : (t s : Text) → ends_with_text t s ≡ true → (front : Text) × (s ≡ front ++ t)
unfolding ends_with_text
ends_with_text_sound t s h =
    let (rest, e) = starts_with_text_sound (reverse t) (reverse s) h in
    (
      reverse rest,
      sym (reverse-reverse s)
          ∙ ap reverse e
          ∙ reverse-append (reverse t) rest
          ∙ ap (λ (x : Text). reverse rest ++ x) (reverse-reverse t),
    )

ends_with_text_complete : (t front : Text) → ends_with_text t (front ++ t) ≡ true
unfolding ends_with_text
ends_with_text_complete t front =
    rw (reverse-append front t) (starts_with_text_complete (reverse t) (reverse front))

contains_text_sound :
    (t s : Text)
    → contains_text t s ≡ true
    → (before : Text) × (after : Text) × (s ≡ before ++ (t ++ after))
unfolding contains_text
contains_text_sound t [] h = let (rest, e) = starts_with_text_sound t [] h in ([], rest, e)
contains_text_sound t (c ∷ s) h = elim (Bool-cases (starts_with_text t (c ∷ s))) [
  | inl here ↦ let (rest, e) = starts_with_text_sound t (c ∷ s) here in ([], rest, e)
  | inr later ↦
      let (before, after, e) = contains_text_sound t s (rw later at h) in
      (c ∷ before, after, ap (λ (x : Text). c ∷ x) e)
]

contains_text_complete : (t before after : Text) → contains_text t (before ++ (t ++ after)) ≡ true
unfolding contains_text
contains_text_complete t [] after = head (t ++ after) (starts_with_text_complete t after)
  where
    head : (s : Text) → starts_with_text t s ≡ true → contains_text t s ≡ true
    head [] h = h
    head (c ∷ s) h = rw h
contains_text_complete t (c ∷ before) after =
    elim (Bool-cases (starts_with_text t (c ∷ (before ++ (t ++ after))))) [
      | inl e ↦ rw e
      | inr e ↦ rw e (contains_text_complete t before after)
    ]

-- What a predicate with its argument says of a candidate.
abbrev pub Says : SelectorPredicate → Text → Text → Type 0
Says equals argument candidate = candidate ≡ argument
Says starts_with argument candidate = (rest : Text) × (candidate ≡ argument ++ rest)
Says ends_with argument candidate = (front : Text) × (candidate ≡ front ++ argument)
Says contains argument candidate =
    (before : Text) × (after : Text) × (candidate ≡ before ++ (argument ++ after))

by_predicate :
    (p : SelectorPredicate) (argument candidate : Text)
    → (matches (record { predicate = p; argument = argument }) candidate ≡ true)
      ↔ Says p argument candidate
unfolding matches
by_predicate equals argument candidate = eq_list_iff candidate argument
by_predicate starts_with argument candidate = (
  starts_with_text_sound argument candidate,
  λ (rest, e). rw e (starts_with_text_complete argument rest),
)
by_predicate ends_with argument candidate = (
  ends_with_text_sound argument candidate,
  λ (front, e). rw e (ends_with_text_complete argument front),
)
by_predicate contains argument candidate = (
  contains_text_sound argument candidate,
  λ (before, after, e). rw e (contains_text_complete argument before after),
)

-- An expression matches a candidate exactly when the candidate is the argument, begins with it,
-- ends with it or has it inside, as its predicate says.
pub matches_iff :
    (e : SelectorExpression) (candidate : Text)
    → (matches e candidate ≡ true) ↔ Says e.predicate e.argument candidate
matches_iff e candidate = by_predicate e.predicate e.argument candidate
