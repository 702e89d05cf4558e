-- ===== src/Ownership/Coverage.antt =====
-- chain.rs: when the scope of a transition covers a document.
use trustgrant.Prelude.{
  Bool, true, false, ◌||◌, not, Option, none, some, List, [], ◌∷◌, ◌++◌, ◌≡◌, refl, ◌↔◌, ◌⊎◌, inl,
  inr, arith, Bool-cases, ok, guard, guard_iff, then_iff, ◌==◌, list_eq, nat_eq, eq_list_iff,
  is_empty, any, all, All, Some, any_iff, all_iff, not,
}
use trustgrant.Prelude.Text.{Text}
use trustgrant.Prelude.Assoc
use trustgrant.Errors.Kinds.{ownership_transition_scope_mismatch}
use trustgrant.Domain.Names.{SelectorKind, ResourceTypeName, resource_type_name_eq, same_kind}
use trustgrant.Domain.Ownership.{OwnershipResourceScope, OwnershipSelector}
use trustgrant.Document.Model.{ValidatedSelector, ValidatedResourceType}
use trustgrant.Ownership.Chain.{
  transition_values, ensure_selector_covered, ensure_selectors_covered,
  ensure_resource_type_scope_covered, ensure_transition_scope_covers_document, covered_by,
}

-- Some selector of the kind names the value.
abbrev pub Names : SelectorKind → List OwnershipSelector → Text → Type 0
Names kind selectors value =
    Some
      (λ (s : OwnershipSelector). (same_kind s.kind kind ≡ true) × Some (λ v. v ≡ value) s.values)
      selectors

-- A selector that lists values, each of which the transition names under the same kind.
pub record SelectorCovered (selectors : List OwnershipSelector) (s : ValidatedSelector)
    : Type 0 where
  pub not_all : s.all ≡ false
  pub no_expression : is_empty s.expressions ≡ true
  pub lists : is_empty s.values ≡ false
  pub named : All (λ v. Names s.kind selectors v) s.values

-- A resource type that takes only listed resources, and denies none.
pub record TypeCovered (scope : OwnershipResourceScope) (rt : ValidatedResourceType) : Type 0 where
  pub not_all : rt.all ≡ false
  pub denies_none : is_empty rt.deny ≡ true
  pub covered : All (λ s. SelectorCovered scope.selectors s) rt.allow

abbrev pub Covers :
    List (ResourceTypeName × OwnershipResourceScope)
    → List (ResourceTypeName × ValidatedResourceType)
    → Type 0
Covers transition_scope [] = Unit
Covers transition_scope ((name, rt) ∷ rest) =
    ((scope : OwnershipResourceScope) × (Assoc.get name transition_scope ≡ some scope)
      × TypeCovered scope rt)
    × Covers transition_scope rest

Some-append :
    (value : Text) (xs ys : List Text)
    → Some (λ v. v ≡ value) (xs ++ ys) ↔ (Some (λ v. v ≡ value) xs ⊎ Some (λ v. v ≡ value) ys)
Some-append value [] ys = (inr, elim [ inl s ↦ elim s [ ] | inr s ↦ s ])
Some-append value (x ∷ xs) ys =
    let (to, from) = Some-append value xs ys in
    (
      elim [ inl e ↦ inl (inl e) | inr s ↦ elim (to s) [ inl l ↦ inl (inr l) | inr r ↦ inr r ] ],
      elim [
        | inl l ↦ elim l [ inl e ↦ inl e | inr s ↦ inr (from (inl s)) ]
        | inr r ↦ inr (from (inr r))
      ],
    )

values_iff :
    (kind : SelectorKind) (selectors : List OwnershipSelector) (value : Text)
    → Some (λ v. v ≡ value) (transition_values kind selectors) ↔ Names kind selectors value
unfolding transition_values
values_iff kind [] value = (λ s. s, λ s. s)
values_iff kind (s ∷ rest) value =
    let (later, later') = values_iff kind rest value in
    elim (Bool-cases (same_kind s.kind kind)) [
      | inl e ↦
          let (to, from) = Some-append value s.values (transition_values kind rest) in
          rw e (
            λ h. elim (to h) [ inl l ↦ inl (refl, l) | inr r ↦ inr (later r) ],
            elim [ inl l ↦ from (inl l.1) | inr r ↦ from (inr (later' r)) ],
          )
      | inr e ↦ rw e (λ h. inr (later h), elim [ inl l ↦ cc | inr r ↦ later' r ])
    ]

shape_iff :
    (a b c : Bool) → (not (a || (not b || c)) ≡ true) ↔ ((a ≡ false) × (b ≡ true) × (c ≡ false))
shape_iff a b c = ground arith

selector_iff :
    (s : ValidatedSelector) (selectors : List OwnershipSelector)
    → (ensure_selector_covered s selectors ≡ ok tt) ↔ SelectorCovered selectors s
unfolding ensure_selector_covered
selector_iff s selectors =
    let (both, both') =
      then_iff
        (guard (not (s.all || (not (is_empty s.expressions) || is_empty s.values)))
          ownership_transition_scope_mismatch)
        (guard (all (λ value. any (λ t. t == value) (transition_values s.kind selectors)) s.values)
          ownership_transition_scope_mismatch) in
    let (first, first') =
      guard_iff (not (s.all || (not (is_empty s.expressions) || is_empty s.values)))
        ownership_transition_scope_mismatch in
    let (second, second') =
      guard_iff (all (λ value. any (λ t. t == value) (transition_values s.kind selectors)) s.values)
        ownership_transition_scope_mismatch in
    let (shape, shape') = shape_iff s.all (is_empty s.expressions) (is_empty s.values) in
    let (names, names') =
      all_iff (λ v. Names s.kind selectors v)
        (λ value. any (λ t. t == value) (transition_values s.kind selectors))
        (λ value.
          let (l, l') =
            any_iff (λ t. t ≡ value) (λ t. t == value) (λ t. eq_list_iff t value)
              (transition_values s.kind selectors) in
          let (r, r') = values_iff s.kind selectors value in (λ h. r (l h), λ h. l' (r' h)))
        s.values in
    (
      λ h.
          let (a, b) = both h in
          let (x, y, z) = shape (first a) in
          record { not_all = x; no_expression = y; lists = z; named = names (second b) },
      λ c. both' (first' (shape' (c.not_all, c.no_expression, c.lists)), second' (names' c.named)),
    )

selectors_iff :
    (ss : List ValidatedSelector) (selectors : List OwnershipSelector)
    → (ensure_selectors_covered ss selectors ≡ ok tt) ↔ All (λ s. SelectorCovered selectors s) ss
unfolding ensure_selectors_covered
selectors_iff [] selectors = (λ _. tt, λ _. refl)
selectors_iff (s ∷ ss) selectors =
    let (both, both') =
      then_iff (ensure_selector_covered s selectors) (ensure_selectors_covered ss selectors) in
    let (one, one') = selector_iff s selectors in
    let (rest, rest') = selectors_iff ss selectors in
    (λ h. let (a, b) = both h in (one a, rest b), λ (a, b). both' (one' a, rest' b))

type_shape_iff : (a b : Bool) → (not (a || not b) ≡ true) ↔ ((a ≡ false) × (b ≡ true))
type_shape_iff a b = ground arith

type_iff :
    (rt : ValidatedResourceType) (scope : OwnershipResourceScope)
    → (ensure_resource_type_scope_covered rt scope ≡ ok tt) ↔ TypeCovered scope rt
unfolding ensure_resource_type_scope_covered
type_iff rt scope =
    let (both, both') =
      then_iff (guard (not (rt.all || not (is_empty rt.deny))) ownership_transition_scope_mismatch)
        (ensure_selectors_covered rt.allow scope.selectors) in
    let (first, first') =
      guard_iff (not (rt.all || not (is_empty rt.deny))) ownership_transition_scope_mismatch in
    let (shape, shape') = type_shape_iff rt.all (is_empty rt.deny) in
    let (each, each') = selectors_iff rt.allow scope.selectors in
    (
      λ h.
          let (a, b) = both h in
          let (x, y) = shape (first a) in record { not_all = x; denies_none = y; covered = each b },
      λ c. both' (first' (shape' (c.not_all, c.denies_none)), each' c.covered),
    )

found_iff :
    (rt : ValidatedResourceType) (found : Option OwnershipResourceScope)
    → (covered_by rt found ≡ ok tt)
      ↔ ((scope : OwnershipResourceScope) × (found ≡ some scope) × TypeCovered scope rt)
found_iff rt none = (λ h. cc, λ (s, e, c). cc)
found_iff rt (some scope) = (
  λ h. (scope, refl, (type_iff rt scope).0 h),
  λ (s, e, c). (type_iff rt scope).1 (let same : s ≡ scope = cc in rw same at c),
)

-- A transition's scope is accepted for a document exactly when it covers each of the document's
-- resource types.
pub ensure_transition_scope_covers_document_iff :
    (document_scope : List (ResourceTypeName × ValidatedResourceType))
    (transition_scope : List (ResourceTypeName × OwnershipResourceScope))
    → (ensure_transition_scope_covers_document document_scope transition_scope ≡ ok tt)
      ↔ Covers transition_scope document_scope
unfolding ensure_transition_scope_covers_document
ensure_transition_scope_covers_document_iff [] ts = (λ _. tt, λ _. refl)
ensure_transition_scope_covers_document_iff ((name, rt) ∷ rest) ts =
    let (both, both') =
      then_iff (covered_by rt (Assoc.get name ts))
        (ensure_transition_scope_covers_document rest ts) in
    let (one, one') = found_iff rt (Assoc.get name ts) in
    let (later, later') = ensure_transition_scope_covers_document_iff rest ts in
    (λ h. let (a, b) = both h in (one a, later b), λ (a, b). both' (one' a, later' b))
