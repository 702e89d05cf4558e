-- ===== src/Document/Selectors.antt =====
-- crates/trustgrant-document/src/validated.rs: selectors, scopes and operation scopes.
use trustgrant.Prelude.{
  ℕ, String, Bool, true, false, ◌&&◌, ◌||◌, not, Option, none, some, List, [], ◌∷◌, Result, ok, err,
  ◌>>=◌, ◌>>◌, guard, ◌==◌, nat_eq, list_eq, eq_list, if◌then◌else◌, length, is_empty, any,
  unwrap_or_default, traverse,
}
use trustgrant.Prelude.Text.{Text, trim}
use trustgrant.Errors.Kinds.{
  TrustGrantError, empty_string_field, invalid_selector_shape, invalid_scope_shape,
  duplicate_selector, duplicate_operation_name,
}
use trustgrant.Errors.Limits.{
  ensure_string_limit, ensure_collection_limit, max_selector_values_per_selector,
  max_selector_value_bytes, max_selector_expressions_per_selector, max_selector_expression_bytes,
  max_selectors_per_scope, max_operations_per_scope,
}
use trustgrant.Domain.Names.{
  SelectorKind, OperationName, new_selector_kind, new_operation_name, same_kind,
}
use trustgrant.Domain.Expression.{
  SelectorPredicate, equals, starts_with, ends_with, contains, SelectorExpression, parse,
}
use trustgrant.Document.Model.{ValidatedSelector, ValidatedScope, ValidatedOperationScope}
use trustgrant.Document.Raw.{RawSelector, RawScope, RawOperationScope}

-- `ensure_string_limit` where a limit is given.
abbrev check_limit : String → Text → Option ℕ → Result TrustGrantError (Unit {0})
check_limit field_name trimmed none = ok tt
check_limit field_name trimmed (some max_bytes) = ensure_string_limit field_name trimmed max_bytes

unfoldable pub normalize_non_empty_string : String → Text → Option ℕ → Result TrustGrantError Text
unfolding trim ensure_string_limit
normalize_non_empty_string field_name value max_bytes = do
  let trimmed = trim value
  if is_empty trimmed
      then err (empty_string_field field_name)
      else do check_limit field_name trimmed max_bytes; ok trimmed

-- `filter(|v| seen.insert(v.clone()))`: the first occurrence of each value.
unfoldable pub keep_first : List Text → List Text → List Text
unfolding any eq_list
keep_first seen [] = []
keep_first seen (v ∷ vs) = elim (any (λ s. s == v) seen) [
  | true ↦ keep_first seen vs
  | false ↦ v ∷ keep_first (v ∷ seen) vs
]

unfoldable pub normalize_non_empty_strings : Option (List Text) → Result TrustGrantError (List Text)
unfolding ensure_collection_limit traverse normalize_non_empty_string keep_first
normalize_non_empty_strings values = do
  let values' = unwrap_or_default values
  ensure_collection_limit "selector.values" (length values') max_selector_values_per_selector
  normalized ←
      traverse (λ v. normalize_non_empty_string "selector.value" v (some max_selector_value_bytes))
        values'
  ok (keep_first [] normalized)

abbrev validate_selector_expression : Text → Result TrustGrantError SelectorExpression
validate_selector_expression expression = do
  expression' ←
      normalize_non_empty_string "selector.expression" expression
        (some max_selector_expression_bytes)
  parse expression'

unfoldable pub validate_selector_expressions :
    Option (List Text) → Result TrustGrantError (List SelectorExpression)
unfolding ensure_collection_limit traverse normalize_non_empty_string parse
validate_selector_expressions expressions = do
  let expressions' = unwrap_or_default expressions
  ensure_collection_limit "selector.expression" (length expressions')
      max_selector_expressions_per_selector
  traverse validate_selector_expression expressions'

-- `ValidatedSelector::new`
unfoldable pub new_validated_selector :
    SelectorKind
    → Bool
    → List Text
    → List SelectorExpression
    → Result TrustGrantError ValidatedSelector
new_validated_selector kind all values expressions = do
  guard (not (all && (not (is_empty values) || not (is_empty expressions)))) invalid_selector_shape
  guard (not (not all && (is_empty values && is_empty expressions))) invalid_selector_shape
  ok (record { kind = kind; all = all; values = values; expressions = expressions })

-- The two shape tests stand in the source once more, as in `ValidatedSelector::new`.
unfoldable pub validate_selector : RawSelector → Result TrustGrantError ValidatedSelector
unfolding new_selector_kind normalize_non_empty_strings validate_selector_expressions
    new_validated_selector
validate_selector raw = do
  kind ← new_selector_kind raw.kind
  values ← normalize_non_empty_strings raw.values
  expressions ← validate_selector_expressions raw.expressions
  new_validated_selector kind raw.all values expressions

-- The derived `PartialEq` of selectors; kinds are compared by `same_kind`.
abbrev same_predicate : SelectorPredicate → SelectorPredicate → Bool
same_predicate equals equals = true
same_predicate starts_with starts_with = true
same_predicate ends_with ends_with = true
same_predicate contains contains = true
same_predicate _ _ = false

unfoldable pub same_expressions : List SelectorExpression → List SelectorExpression → Bool
unfolding eq_list
same_expressions [] [] = true
same_expressions [] (b ∷ bs) = false
same_expressions (a ∷ as') [] = false
same_expressions (a ∷ as') (b ∷ bs) =
    (same_predicate a.predicate b.predicate && a.argument == b.argument) && same_expressions as' bs

abbrev same_bool : Bool → Bool → Bool
same_bool true b = b
same_bool false b = not b

unfoldable pub same_selector : ValidatedSelector → ValidatedSelector → Bool
unfolding same_kind same_expressions eq_list
same_selector a b =
    same_kind a.kind b.kind
    && (same_bool a.all b.all
        && (a.values == b.values && same_expressions a.expressions b.expressions))

-- The loop of `validate_selectors`.
unfoldable pub validate_each :
    List ValidatedSelector → List RawSelector → Result TrustGrantError (List ValidatedSelector)
unfolding validate_selector any same_selector
validate_each seen [] = ok []
validate_each seen (raw ∷ raws) = do
  selector ← validate_selector raw
  guard (not (any (λ s. same_selector s selector) seen)) duplicate_selector
  rest ← validate_each (selector ∷ seen) raws
  ok (selector ∷ rest)

unfoldable pub validate_selectors :
    Option (List RawSelector) → Result TrustGrantError (List ValidatedSelector)
unfolding ensure_collection_limit validate_each
validate_selectors raw = do
  let selectors = unwrap_or_default raw
  ensure_collection_limit "scope.selectors" (length selectors) max_selectors_per_scope
  validate_each [] selectors

unfoldable pub validate_scope_shape :
    String → Bool → Bool → Bool → Result TrustGrantError (Unit {0})
validate_scope_shape scope_name all allow_is_empty allow_present = do
  guard (not (all && not allow_is_empty)) (invalid_scope_shape scope_name)
  guard (not (not all && not allow_present)) (invalid_scope_shape scope_name)

unfoldable pub new_validated_scope :
    String
    → Bool
    → List ValidatedSelector
    → List ValidatedSelector
    → Result TrustGrantError ValidatedScope
unfolding validate_scope_shape
new_validated_scope scope_name all allow deny = do
  validate_scope_shape scope_name all (is_empty allow) (not (is_empty allow))
  ok (record { all = all; allow = allow; deny = deny })

unfoldable pub validate_scope : String → RawScope → Result TrustGrantError ValidatedScope
unfolding validate_selectors new_validated_scope
validate_scope scope_name raw = do
  allow ← validate_selectors raw.allow
  deny ← validate_selectors raw.deny
  new_validated_scope scope_name raw.all allow deny

unfoldable pub normalize_non_empty_operation_names :
    Option (List Text) → Result TrustGrantError (List OperationName)
unfolding ensure_collection_limit traverse new_operation_name
normalize_non_empty_operation_names values = do
  let values' = unwrap_or_default values
  ensure_collection_limit "operations" (length values') max_operations_per_scope
  traverse new_operation_name values'

-- The loop of `ensure_no_duplicate_operations`.
unfoldable pub ensure_no_duplicates_from :
    List Text → List OperationName → Result TrustGrantError (Unit {0})
unfolding any eq_list
ensure_no_duplicates_from seen [] = ok tt
ensure_no_duplicates_from seen (operation ∷ rest) = do
  guard (not (any (λ s. s == operation.as_str) seen)) duplicate_operation_name
  ensure_no_duplicates_from (operation.as_str ∷ seen) rest

abbrev pub ensure_no_duplicate_operations : List OperationName → Result TrustGrantError (Unit {0})
ensure_no_duplicate_operations operations = ensure_no_duplicates_from [] operations

unfoldable pub new_validated_operation_scope :
    List OperationName → List OperationName → Result TrustGrantError ValidatedOperationScope
unfolding ensure_no_duplicates_from
new_validated_operation_scope allow deny = do
  guard (not (is_empty allow)) (invalid_scope_shape "operations")
  ensure_no_duplicate_operations allow
  ensure_no_duplicate_operations deny
  ok (record { allow = allow; deny = deny })

unfoldable pub validate_operation_scope :
    RawOperationScope → Result TrustGrantError ValidatedOperationScope
unfolding normalize_non_empty_operation_names new_validated_operation_scope
validate_operation_scope raw = do
  allow ← normalize_non_empty_operation_names raw.allow
  deny ← normalize_non_empty_operation_names raw.deny
  new_validated_operation_scope allow deny
