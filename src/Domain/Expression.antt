-- ===== src/Domain/Expression.antt =====
-- crates/trustgrant-domain/src/selector_expression.rs: expressions such as startsWith("vip_").
pub mod RoundTrip
pub mod Matching
use trustgrant.Prelude.{
  ℕ, String, Bool, true, false, ◌||◌, ◌&&◌, Option, none, some, Result, ok, err, ◌>>=◌, ◌>>◌, guard,
  ◌==◌, list_eq, eq_list, nat_eq, not, if◌then◌else◌, is_empty, ok_or, eqb, List, [], ◌∷◌, ◌++◌,
}
use trustgrant.Prelude.Text.{
  Text, codes, trim, is_control, split_at_char, strip_prefix, strip_suffix, ends_with_char,
  starts_with_text, ends_with_text, contains_text,
}
use trustgrant.Errors.Kinds.{
  TrustGrantError, unsupported_selector_expression_predicate, invalid_selector_expression_syntax,
  empty_string_field,
}
use trustgrant.Errors.Limits.{ensure_string_limit, max_selector_expression_bytes}

pub data SelectorPredicate : Type 0 where
  equals starts_with ends_with contains : SelectorPredicate

unfoldable pub parse_predicate : Text → Result TrustGrantError SelectorPredicate
unfolding eq_list
parse_predicate value =
    if value == codes "equals"
    then ok equals
    else if value == codes "startsWith"
    then ok starts_with
    else if value == codes "endsWith"
    then ok ends_with
    else if value == codes "contains"
    then ok contains
    else err (unsupported_selector_expression_predicate value)

unfoldable pub display_predicate : SelectorPredicate → Text
display_predicate equals = codes "equals"
display_predicate starts_with = codes "startsWith"
display_predicate ends_with = codes "endsWith"
display_predicate contains = codes "contains"

pub record SelectorExpression : Type 0 where
  pub predicate : SelectorPredicate
  pub argument : Text

unfoldable pub normalize_non_empty_expression : Text → Result TrustGrantError Text
unfolding trim
normalize_non_empty_expression value =
    let trimmed = trim value in
    if is_empty trimmed then err (empty_string_field "selector.expression") else ok trimmed

unfoldable pub unescaped : ℕ → Result TrustGrantError ℕ
unescaped c =
    if eqb c b'\\'
    then ok b'\\'
    else if eqb c b'"'
    then ok b'"'
    else if eqb c b'n'
    then ok 10
    else if eqb c b'r'
    then ok 13
    else if eqb c b't'
    then ok 9
    else err invalid_selector_expression_syntax

-- The loop of `parse_quoted_argument`; the flag says that a backslash was read.
unfoldable pub unescape : Bool → Text → Result TrustGrantError Text
unfolding unescaped is_control
unescape true [] = err invalid_selector_expression_syntax
unescape true (c ∷ s) = do u ← unescaped c; parsed ← unescape false s; ok (u ∷ parsed)
unescape false [] = ok []
unescape false (c ∷ s) = elim (eqb c b'"') [
  | true ↦ err invalid_selector_expression_syntax
  | false ↦ elim (eqb c b'\\') [
    | true ↦ unescape true s
    | false ↦ elim (is_control c) [
      | true ↦ err invalid_selector_expression_syntax
      | false ↦ do parsed ← unescape false s; ok (c ∷ parsed)
    ]
  ]
]

-- `strip_prefix(open).and_then(strip_suffix(close)).ok_or(InvalidSelectorExpressionSyntax)`
unfoldable pub strip_both : ℕ → ℕ → Text → Result TrustGrantError Text
unfolding strip_prefix strip_suffix
strip_both first last value = do
  inner ← ok_or (strip_prefix first value) invalid_selector_expression_syntax
  ok_or (strip_suffix last inner) invalid_selector_expression_syntax

unfoldable pub parse_quoted_argument : Text → Result TrustGrantError Text
unfolding strip_both unescape ensure_string_limit
parse_quoted_argument value = do
  inner ← strip_both b'"' b'"' value
  parsed ← unescape false inner
  ensure_string_limit "selector.expression" parsed max_selector_expression_bytes
  ok parsed

unfoldable pub parse : Text → Result TrustGrantError SelectorExpression
unfolding normalize_non_empty_expression ensure_string_limit split_at_char ends_with_char
    parse_predicate strip_both parse_quoted_argument trim
parse value = do
  value' ← normalize_non_empty_expression value
  ensure_string_limit "selector.expression" value' max_selector_expression_bytes
  (before_paren, after_open) ← ok_or (split_at_char b'(' value') invalid_selector_expression_syntax
  guard (ends_with_char b')' value') invalid_selector_expression_syntax
  predicate ← parse_predicate (trim before_paren)
  quoted_argument ← strip_both b'(' b')' after_open
  argument ← parse_quoted_argument (trim quoted_argument)
  ok (record { predicate = predicate; argument = argument })

unfoldable pub matches : SelectorExpression → Text → Bool
unfolding eq_list starts_with_text ends_with_text contains_text
matches e candidate = elim e.predicate [
  | equals ↦ candidate == e.argument
  | starts_with ↦ starts_with_text e.argument candidate
  | ends_with ↦ ends_with_text e.argument candidate
  | contains ↦ contains_text e.argument candidate
]

unfoldable pub escape : ℕ → Text
escape c =
    if eqb c b'\\'
    then b'\\' ∷ b'\\' ∷ []
    else if eqb c b'"'
    then b'\\' ∷ b'"' ∷ []
    else if eqb c 10
    then b'\\' ∷ b'n' ∷ []
    else if eqb c 13
    then b'\\' ∷ b'r' ∷ []
    else if eqb c 9
    then b'\\' ∷ b't' ∷ []
    else c ∷ []

unfoldable pub escape_all : Text → Text
unfolding escape
escape_all [] = []
escape_all (c ∷ s) = escape c ++ escape_all s

-- `Display for SelectorExpression`
unfoldable pub display : SelectorExpression → Text
unfolding display_predicate escape_all
display e =
    display_predicate e.predicate ++ (b'(' ∷ b'"' ∷ (escape_all e.argument ++ (b'"' ∷ b')' ∷ [])))
