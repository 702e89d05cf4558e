-- ===== src/Domain/Expression/RoundTrip.antt =====
-- selector_expression.rs: what is printed is parsed back.
use trustgrant.Prelude.{
  ℕ, ◌+◌, ◌≤◌, true, false, some, [], ◌∷◌, ◌++◌, ◌≡◌, refl, ap, sym, ◌∙◌, ◌⊎◌, inl, inr, arith,
  Bool-cases, ok, ◌>>=◌, eqb, All, is_empty,
}
use trustgrant.Prelude.Text.{
  Text, codes, trim, trim_start, is_whitespace, is_control, byte_len, utf8_width, split_at_char,
  strip_prefix, strip_suffix, ends_with_char,
}
use trustgrant.Errors.Limits.{ensure_string_limit, max_selector_expression_bytes}
use trustgrant.Domain.Expression.{
  SelectorPredicate, equals, starts_with, ends_with, contains, SelectorExpression, parse, display,
  display_predicate, escape, escape_all, unescape, unescaped, parse_predicate,
  parse_quoted_argument, strip_both, normalize_non_empty_expression,
}
use mathlib.Core.List.{reverse, append_assoc}
use mathlib.Mathlib.Data.List.Basic.{reverse-concat', reverse-Involutive}

-- A character that an expression can hold: no control character but a line feed, a carriage return
-- or a tab.
abbrev pub Printable : ℕ → Type 0
Printable c = (is_control c ≡ false) ⊎ (c ≡ 10) ⊎ (c ≡ 13) ⊎ (c ≡ 9)

trim_start-solid : (c : ℕ) (s : Text) → is_whitespace c ≡ false → trim_start (c ∷ s) ≡ c ∷ s
unfolding trim_start
trim_start-solid c s h = rw h refl

-- Nothing is trimmed off a text that neither begins nor ends with white space.
pub trim-framed :
    (first last : ℕ) (s : Text)
    → is_whitespace first ≡ false
    → is_whitespace last ≡ false
    → trim (first ∷ (s ++ last ∷ [])) ≡ first ∷ (s ++ last ∷ [])
unfolding trim
trim-framed first last s h k =
    ap (λ x. reverse (trim_start (reverse x))) (trim_start-solid first (s ++ last ∷ []) h)
    ∙ ap (λ x. reverse (trim_start x)) (reverse-concat' (first ∷ s) last)
    ∙ ap reverse (trim_start-solid last (reverse (first ∷ s)) k)
    ∙ ap reverse (sym (reverse-concat' (first ∷ s) last))
    ∙ reverse-Involutive (first ∷ (s ++ last ∷ []))

strip_suffix-last : (d : ℕ) (s : Text) → strip_suffix d (s ++ d ∷ []) ≡ some s
unfolding strip_suffix
strip_suffix-last d [] = ground arith
strip_suffix-last d (c ∷ []) = ground arith
strip_suffix-last d (c ∷ c' ∷ s) = rw (strip_suffix-last d (c' ∷ s)) refl

ends_with_char-last : (d : ℕ) (s : Text) → ends_with_char d (s ++ d ∷ []) ≡ true
unfolding ends_with_char
ends_with_char-last d [] = ground arith
ends_with_char-last d (c ∷ []) = ground arith
ends_with_char-last d (c ∷ c' ∷ s) = ends_with_char-last d (c' ∷ s)

strip_both-framed :
    (first last : ℕ) (s : Text) → strip_both first last (first ∷ (s ++ last ∷ [])) ≡ ok s
unfolding strip_both strip_prefix
strip_both-framed first last s =
    let e : eqb first first ≡ true = ground arith in rw (e, strip_suffix-last last s) refl

-- Each escaped character is read back.
unescape-escape :
    (c : ℕ) (rest : Text)
    → Printable c
    → unescape false (escape c ++ rest) ≡ (unescape false rest >>= λ s. ok (c ∷ s))
unfolding escape unescape unescaped
unescape-escape c rest p = elim (Bool-cases (eqb c b'\\')) [
  | inl e ↦ let same : c ≡ b'\\' = ground arith in rw same refl
  | inr e₁ ↦ elim (Bool-cases (eqb c b'"')) [
    | inl e ↦ let same : c ≡ b'"' = ground arith in rw same refl
    | inr e₂ ↦ elim (Bool-cases (eqb c 10)) [
      | inl e ↦ let same : c ≡ 10 = ground arith in rw same refl
      | inr e₃ ↦ elim (Bool-cases (eqb c 13)) [
        | inl e ↦ let same : c ≡ 13 = ground arith in rw same refl
        | inr e₄ ↦ elim (Bool-cases (eqb c 9)) [
          | inl e ↦ let same : c ≡ 9 = ground arith in rw same refl
          | inr e₅ ↦ elim p [
            | inl plain ↦ rw (e₁, e₂, e₃, e₄, e₅, unescape, e₂, e₁, plain) refl
            | inr other ↦ ground arith
          ]
        ]
      ]
    ]
  ]
]

unescape-escape_all : (s : Text) → All Printable s → unescape false (escape_all s) ≡ ok s
unfolding escape_all unescape
unescape-escape_all [] p = refl
unescape-escape_all (c ∷ s) (p, ps) =
    unescape-escape c (escape_all s) p ∙ rw (unescape-escape_all s ps) refl

byte_len-append : (s t : Text) → byte_len (s ++ t) ≡ byte_len s + byte_len t
unfolding byte_len
byte_len-append [] t = omega arith
byte_len-append (c ∷ s) t = omega (arith, byte_len-append s t)

-- Escaping a character takes no bytes away.
escape-width : (c : ℕ) → utf8_width c ≤ byte_len (escape c)
unfolding escape byte_len utf8_width
escape-width c = ground arith

escape_all-byte_len : (s : Text) → byte_len s ≤ byte_len (escape_all s)
unfolding escape_all byte_len
escape_all-byte_len [] = omega arith
escape_all-byte_len (c ∷ s) =
    omega (arith, byte_len-append (escape c) (escape_all s), escape-width c, escape_all-byte_len s)

-- The argument between its quotes.
abbrev quoted : Text → Text
quoted argument = b'"' ∷ (escape_all argument ++ b'"' ∷ [])

abbrev printed : SelectorPredicate → Text → Text
printed p argument = display_predicate p ++ b'(' ∷ (quoted argument ++ b')' ∷ [])

display-printed : (e : SelectorExpression) → display e ≡ printed e.predicate e.argument
unfolding display
display-printed e =
    ap (λ s. display_predicate e.predicate ++ b'(' ∷ b'"' ∷ s)
      (sym (append_assoc (escape_all e.argument) (b'"' ∷ []) (b')' ∷ [])))

limit_ok :
    (s : Text)
    → byte_len s ≤ max_selector_expression_bytes
    → ensure_string_limit "selector.expression" s max_selector_expression_bytes ≡ ok tt
unfolding ensure_string_limit
limit_ok s h = ground arith

byte_len-printed :
    (p : SelectorPredicate) (argument : Text) → byte_len argument ≤ byte_len (printed p argument)
unfolding byte_len
byte_len-printed p argument = omega (
  arith,
  byte_len-append (display_predicate p) (b'(' ∷ (quoted argument ++ b')' ∷ [])),
  byte_len-append (quoted argument) (b')' ∷ []),
  byte_len-append (escape_all argument) (b'"' ∷ []),
  escape_all-byte_len argument,
)

trim-printed :
    (p : SelectorPredicate) (argument : Text) → trim (printed p argument) ≡ printed p argument
unfolding display_predicate is_whitespace
trim-printed equals argument =
    trim-framed b'e' b')' (codes "quals" ++ b'(' ∷ quoted argument) refl refl
trim-printed starts_with argument =
    trim-framed b's' b')' (codes "tartsWith" ++ b'(' ∷ quoted argument) refl refl
trim-printed ends_with argument =
    trim-framed b'e' b')' (codes "ndsWith" ++ b'(' ∷ quoted argument) refl refl
trim-printed contains argument =
    trim-framed b'c' b')' (codes "ontains" ++ b'(' ∷ quoted argument) refl refl

split-printed :
    (p : SelectorPredicate) (argument : Text)
    → split_at_char b'(' (printed p argument)
      ≡ some (display_predicate p, b'(' ∷ (quoted argument ++ b')' ∷ []))
unfolding display_predicate split_at_char
split-printed equals argument = refl
split-printed starts_with argument = refl
split-printed ends_with argument = refl
split-printed contains argument = refl

name-parses : (p : SelectorPredicate) → parse_predicate (trim (display_predicate p)) ≡ ok p
unfolding display_predicate parse_predicate trim trim_start is_whitespace
name-parses equals = refl
name-parses starts_with = refl
name-parses ends_with = refl
name-parses contains = refl

is_empty-printed : (p : SelectorPredicate) (argument : Text) → is_empty (printed p argument) ≡ false
unfolding display_predicate
is_empty-printed equals argument = refl
is_empty-printed starts_with argument = refl
is_empty-printed ends_with argument = refl
is_empty-printed contains argument = refl

ends-printed :
    (p : SelectorPredicate) (argument : Text) → ends_with_char b')' (printed p argument) ≡ true
ends-printed p argument =
    ap (ends_with_char b')')
      (sym (append_assoc (display_predicate p) (b'(' ∷ quoted argument) (b')' ∷ [])))
    ∙ ends_with_char-last b')' (display_predicate p ++ b'(' ∷ quoted argument)

quoted-parses :
    (argument : Text)
    → All Printable argument
    → byte_len argument ≤ max_selector_expression_bytes
    → parse_quoted_argument (quoted argument) ≡ ok argument
unfolding parse_quoted_argument
quoted-parses argument p h =
    rw
      (
        strip_both-framed b'"' b'"' (escape_all argument),
        unescape-escape_all argument p,
        limit_ok argument h,
      )
      refl

quote_solid : is_whitespace b'"' ≡ false
unfolding is_whitespace
quote_solid = refl

-- An expression whose argument has no control character but a line feed, a carriage return or a tab,
-- and whose printed form is not longer than the limit, is parsed back from that form.
pub parse-display :
    (e : SelectorExpression)
    → All Printable e.argument
    → byte_len (display e) ≤ max_selector_expression_bytes
    → parse (display e) ≡ ok e
unfolding parse normalize_non_empty_expression
parse-display e p h =
    let form = display-printed e in
    let size : byte_len (printed e.predicate e.argument) ≤ max_selector_expression_bytes =
      rw form at h in
    let quote_trim : trim (quoted e.argument) ≡ quoted e.argument =
      trim-framed b'"' b'"' (escape_all e.argument) quote_solid quote_solid in
    let short : byte_len e.argument ≤ max_selector_expression_bytes =
      omega (arith, byte_len-printed e.predicate e.argument) in
    rw
      (
        form,
        trim-printed e.predicate e.argument,
        is_empty-printed e.predicate e.argument,
        limit_ok (printed e.predicate e.argument) size,
        split-printed e.predicate e.argument,
        ends-printed e.predicate e.argument,
        name-parses e.predicate,
        strip_both-framed b'(' b')' (quoted e.argument),
        quote_trim,
        quoted-parses e.argument p short,
      )
      refl
