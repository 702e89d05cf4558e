-- ===== src/Document/Shape.antt =====
-- validated.rs: what the selectors, scopes and operation scopes of a validated document satisfy.
use trustgrant.Prelude.{
  Bool, true, false, not, String, List, [], ◌∷◌, ◌≡◌, ◌⊎◌, arith, ok, >>=-eq-ok, guard, check_iff,
  ok_iff, guard_iff, ◌==◌, list_eq, nat_eq, eq_list_iff, is_empty, any, none_iff, All, All-map,
  Distinct,
}
use trustgrant.Prelude.Text.{Text}
use trustgrant.Errors.Kinds.{TrustGrantError, invalid_scope_shape, duplicate_operation_name}
use trustgrant.Domain.Names.{OperationName}
use trustgrant.Document.Model.{ValidatedSelector, ValidatedScope, ValidatedOperationScope}
use trustgrant.Document.Raw.{RawScope, RawOperationScope}
use trustgrant.Document.Selectors.{
  validate_selectors, validate_scope_shape, new_validated_scope, validate_scope,
  normalize_non_empty_operation_names, ensure_no_duplicates_from, new_validated_operation_scope,
  validate_operation_scope,
}
use trustgrant.Document.SelectorShape.{AreSelectors, validate_selectors-AreSelectors}

-- Taking all and allowing some exclude each other, and one of them is there.
abbrev pub ScopeShape : Bool → List ValidatedSelector → Type 0
ScopeShape all allow =
    ((all ≡ true) × (is_empty allow ≡ true)) ⊎ ((all ≡ false) × (is_empty allow ≡ false))

pub record IsScope (s : ValidatedScope) : Type 0 where
  pub shape : ScopeShape s.all s.allow
  pub allow : AreSelectors s.allow
  pub deny : AreSelectors s.deny

abbrev pub texts : List OperationName → List Text
texts [] = []
texts (n ∷ ns) = n.as_str ∷ texts ns

pub record IsOperationScope (s : ValidatedOperationScope) : Type 0 where
  pub some_allowed : is_empty s.allow ≡ false
  pub allow : Distinct (texts s.allow)
  pub deny : Distinct (texts s.deny)

pub validate_scope_shape-ScopeShape :
    (name : String) (all : Bool) (allow : List ValidatedSelector)
    → validate_scope_shape name all (is_empty allow) (not (is_empty allow)) ≡ ok tt
    → ScopeShape all allow
unfolding validate_scope_shape
validate_scope_shape-ScopeShape name all allow h = ground arith

-- A raw scope that is validated gives a scope that takes all or allows some, not both, whose
-- selectors each take all or list something, with no value twice and no selector twice.
pub validate_scope-IsScope :
    (name : String) (raw : RawScope) (s : ValidatedScope)
    → validate_scope name raw ≡ ok s
    → IsScope s
unfolding validate_scope new_validated_scope
validate_scope-IsScope name raw s h =
    let (allow, a, h₁) = >>=-eq-ok (validate_selectors raw.allow) _ h in
    let (deny, d, h₂) = >>=-eq-ok (validate_selectors raw.deny) _ h₁ in
    let made : ValidatedScope = record { all = raw.all; allow = allow; deny = deny } in
    let (shape, h₃) =
      (check_iff (validate_scope_shape name raw.all (is_empty allow) (not (is_empty allow)))
          (ok made) s).0
        h₂ in
    let e = (ok_iff {E = TrustGrantError} made s).0 h₃ in
    rw e (record {
      shape = validate_scope_shape-ScopeShape name raw.all allow shape;
      allow = validate_selectors-AreSelectors raw.allow allow a;
      deny = validate_selectors-AreSelectors raw.deny deny d;
    })

no_duplicates-Distinct :
    (seen : List Text) (ns : List OperationName)
    → ensure_no_duplicates_from seen ns ≡ ok tt
    → All (λ w. All (λ s. ¬ (s ≡ w)) seen) (texts ns) × Distinct (texts ns)
unfolding ensure_no_duplicates_from
no_duplicates-Distinct seen [] h = (tt, tt)
no_duplicates-Distinct seen (n ∷ ns) h =
    let (g, h₁) =
      (check_iff (guard (not (any (λ s. s == n.as_str) seen)) duplicate_operation_name) _ tt).0 h in
    let test = (guard_iff (not (any (λ s. s == n.as_str) seen)) duplicate_operation_name).0 g in
    let fresh : any (λ s. s == n.as_str) seen ≡ false = ground arith in
    let (apart, distinct) = no_duplicates-Distinct (n.as_str ∷ seen) ns h₁ in
    (
      (
        (none_iff (λ s. s ≡ n.as_str) (λ s. s == n.as_str) (λ s. eq_list_iff s n.as_str) seen).0
            fresh,
        All-map (λ w p. p.1) (texts ns) apart,
      ),
      (All-map (λ w p. p.0) (texts ns) apart, distinct),
    )

-- A raw operation scope that is validated allows some operation, and neither list has one twice.
pub validate_operation_scope-IsOperationScope :
    (raw : RawOperationScope) (s : ValidatedOperationScope)
    → validate_operation_scope raw ≡ ok s
    → IsOperationScope s
unfolding validate_operation_scope new_validated_operation_scope
validate_operation_scope-IsOperationScope raw s h =
    let (allow, _, h₁) = >>=-eq-ok (normalize_non_empty_operation_names raw.allow) _ h in
    let (deny, _, h₂) = >>=-eq-ok (normalize_non_empty_operation_names raw.deny) _ h₁ in
    let made : ValidatedOperationScope = record { allow = allow; deny = deny } in
    let (a, h₃) =
      (check_iff (guard (not (is_empty allow)) (invalid_scope_shape "operations")) _ s).0 h₂ in
    let (b, h₄) = (check_iff (ensure_no_duplicates_from [] allow) _ s).0 h₃ in
    let (c, h₅) = (check_iff (ensure_no_duplicates_from [] deny) (ok made) s).0 h₄ in
    let e = (ok_iff {E = TrustGrantError} made s).0 h₅ in
    let test = (guard_iff (not (is_empty allow)) (invalid_scope_shape "operations")).0 a in
    rw e (record {
      some_allowed = ground arith;
      allow = (no_duplicates-Distinct [] allow b).1;
      deny = (no_duplicates-Distinct [] deny c).1;
    })
