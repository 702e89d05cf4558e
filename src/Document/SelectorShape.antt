-- ===== src/Document/SelectorShape.antt =====
-- validated.rs: what the selectors of a validated document satisfy.
use trustgrant.Prelude.{
  Bool, true, false, ◌&&◌, ◌||◌, not, Option, some, List, [], ◌∷◌, ◌≡◌, refl, sym, subst, ◌⊎◌, inl,
  inr, arith, Bool-cases, ok, >>=-eq-ok, guard, check_iff, ok_iff, guard_iff, ◌==◌, list_eq, nat_eq,
  eq_list_iff, is_empty, length, any, any-false, none_iff, All, All-map, Distinct, traverse,
  unwrap_or_default,
}
use trustgrant.Prelude.Text.{Text}
use trustgrant.Errors.Kinds.{TrustGrantError, invalid_selector_shape, duplicate_selector}
use trustgrant.Errors.Limits.{
  ensure_collection_limit, max_selector_value_bytes, max_selectors_per_scope,
}
use trustgrant.Domain.Names.{new_selector_kind}
use trustgrant.Document.Model.{ValidatedSelector}
use trustgrant.Document.Raw.{RawSelector}
use trustgrant.Document.Selectors.{
  keep_first, normalize_non_empty_strings, normalize_non_empty_string, new_validated_selector,
  validate_selector, validate_selector_expressions, same_selector, validate_each,
  validate_selectors,
}

-- A selector takes all, or lists values or expressions; no value stands twice.
pub record IsSelector (s : ValidatedSelector) : Type 0 where
  pub shape :
      ((s.all ≡ true) × (is_empty s.values ≡ true) × (is_empty s.expressions ≡ true))
      ⊎ ((s.all ≡ false) × ((is_empty s.values && is_empty s.expressions) ≡ false))
  pub distinct : Distinct s.values

-- No selector comes again.
abbrev pub NoRepeat : List ValidatedSelector → Type 0
NoRepeat [] = Unit
NoRepeat (s ∷ ss) = All (λ t. same_selector s t ≡ false) ss × NoRepeat ss

pub record AreSelectors (ss : List ValidatedSelector) : Type 0 where
  pub each : All IsSelector ss
  pub no_repeat : NoRepeat ss

abbrev Apart : List Text → List Text → Type 0
Apart seen ws = All (λ w. All (λ s. ¬ (s ≡ w)) seen) ws × Distinct ws

keep_first-old :
    (seen : List Text) (v : Text) (vs : List Text)
    → any (λ s. s == v) seen ≡ true
    → keep_first seen (v ∷ vs) ≡ keep_first seen vs
unfolding keep_first
keep_first-old seen v vs e = rw (e, keep_first) refl

keep_first-new :
    (seen : List Text) (v : Text) (vs : List Text)
    → any (λ s. s == v) seen ≡ false
    → keep_first seen (v ∷ vs) ≡ v ∷ keep_first (v ∷ seen) vs
unfolding keep_first
keep_first-new seen v vs e = rw (e, keep_first) refl

-- Nothing that is kept was seen before, and nothing is kept twice.
keep_first-Distinct : (seen vs : List Text) → Apart seen (keep_first seen vs)
unfolding keep_first
keep_first-Distinct seen [] = (tt, tt)
keep_first-Distinct seen (v ∷ vs) =
    let (fresh, _) = none_iff (λ s. s ≡ v) (λ s. s == v) (λ s. eq_list_iff s v) seen in
    elim (Bool-cases (any (λ s. s == v) seen)) [
      | inl e ↦
          subst (λ ws. Apart seen ws) (sym (keep_first-old seen v vs e))
            (keep_first-Distinct seen vs)
      | inr e ↦
          let (apart, distinct) = keep_first-Distinct (v ∷ seen) vs in
          subst (λ ws. Apart seen ws) (sym (keep_first-new seen v vs e))
            (
              (fresh e, All-map (λ w p. p.1) (keep_first (v ∷ seen) vs) apart),
              (All-map (λ w p. p.0) (keep_first (v ∷ seen) vs) apart, distinct),
            )
    ]

values-Distinct :
    (raw : Option (List Text)) (vs : List Text)
    → normalize_non_empty_strings raw ≡ ok vs
    → Distinct vs
unfolding normalize_non_empty_strings
values-Distinct raw vs h =
    let (u, _, h₁) =
      >>=-eq-ok (ensure_collection_limit "selector.values" (length (unwrap_or_default raw)) _) _
        h in
    let (normalized, _, h₂) =
      >>=-eq-ok
        (traverse
          (λ v. normalize_non_empty_string "selector.value" v (some max_selector_value_bytes))
          (unwrap_or_default raw))
        _ h₁ in
    let e = (ok_iff {E = TrustGrantError} (keep_first [] normalized) vs).0 h₂ in
    rw e (keep_first-Distinct [] normalized).1

selector_shape :
    (all v e : Bool)
    → not (all && (not v || not e)) ≡ true
    → not (not all && (v && e)) ≡ true
    → ((all ≡ true) × (v ≡ true) × (e ≡ true)) ⊎ ((all ≡ false) × ((v && e) ≡ false))
selector_shape all v e h k = ground arith

validate_selector-IsSelector :
    (raw : RawSelector) (s : ValidatedSelector) → validate_selector raw ≡ ok s → IsSelector s
unfolding validate_selector new_validated_selector
validate_selector-IsSelector raw s h =
    let (kind, _, h₁) = >>=-eq-ok (new_selector_kind raw.kind) _ h in
    let (values, v, h₂) = >>=-eq-ok (normalize_non_empty_strings raw.values) _ h₁ in
    let (expressions, _, h₃) = >>=-eq-ok (validate_selector_expressions raw.expressions) _ h₂ in
    let made : ValidatedSelector = record {
      kind = kind;
      all = raw.all;
      values = values;
      expressions = expressions;
    } in
    let (a, h₄) =
      (check_iff
          (guard (not (raw.all && (not (is_empty values) || not (is_empty expressions))))
            invalid_selector_shape)
          _ s).0
        h₃ in
    let (b, h₅) =
      (check_iff
          (guard (not (not raw.all && (is_empty values && is_empty expressions)))
            invalid_selector_shape)
          (ok made) s).0
        h₄ in
    let e = (ok_iff {E = TrustGrantError} made s).0 h₅ in
    rw e (record {
      shape =
          selector_shape raw.all (is_empty values) (is_empty expressions)
            ((guard_iff (not (raw.all && (not (is_empty values) || not (is_empty expressions))))
                invalid_selector_shape).0
              a)
            ((guard_iff (not (not raw.all && (is_empty values && is_empty expressions)))
                invalid_selector_shape).0
              b);
      distinct = values-Distinct raw.values values v;
    })

-- What the loop has let pass.
record Passed (seen ss : List ValidatedSelector) : Type 0 where
  apart : All (λ t. All (λ s. same_selector s t ≡ false) seen) ss
  selectors : AreSelectors ss

validate_each-Passed :
    (seen : List ValidatedSelector) (raws : List RawSelector) (ss : List ValidatedSelector)
    → validate_each seen raws ≡ ok ss
    → Passed seen ss
unfolding validate_each
validate_each-Passed seen [] ss h =
    let e = (ok_iff {E = TrustGrantError} [] ss).0 h in
    rw e (record { apart = tt; selectors = record { each = tt; no_repeat = tt } })
validate_each-Passed seen (raw ∷ raws) ss h =
    let (s, one, h₁) = >>=-eq-ok (validate_selector raw) _ h in
    let (g, h₂) =
      (check_iff (guard (not (any (λ t. same_selector t s) seen)) duplicate_selector) _ ss).0 h₁ in
    let (rest, later, h₃) = >>=-eq-ok (validate_each (s ∷ seen) raws) _ h₂ in
    let e = (ok_iff {E = TrustGrantError} (s ∷ rest) ss).0 h₃ in
    let test = (guard_iff (not (any (λ t. same_selector t s) seen)) duplicate_selector).0 g in
    let fresh : any (λ t. same_selector t s) seen ≡ false = ground arith in
    let p = validate_each-Passed (s ∷ seen) raws rest later in
    rw e (record {
      apart = (any-false (λ t. same_selector t s) seen fresh, All-map (λ t q. q.1) rest p.apart);
      selectors = record {
        each = (validate_selector-IsSelector raw s one, p.selectors.each);
        no_repeat = (All-map (λ t q. q.0) rest p.apart, p.selectors.no_repeat);
      };
    })

pub validate_selectors-AreSelectors :
    (raw : Option (List RawSelector)) (ss : List ValidatedSelector)
    → validate_selectors raw ≡ ok ss
    → AreSelectors ss
unfolding validate_selectors
validate_selectors-AreSelectors raw ss h =
    let (_, _, h₁) =
      >>=-eq-ok
        (ensure_collection_limit "scope.selectors" (length (unwrap_or_default raw))
          max_selectors_per_scope)
        _ h in
    (validate_each-Passed [] (unwrap_or_default raw) ss h₁).selectors
