-- ===== src/Prelude/Text.antt =====
-- `str` as the list of its characters' code points, with the parts of Rust's standard library that
-- the code calls on it. A length counts bytes of UTF-8.
use Prim.Native.Nat.{ℕ, ◌+◌}
use Prim.Native.String.{String}
use Prim.Native.Char.{code}
use mathlib.Core.Bool.{Bool, true, false, ◌&&◌, ◌||◌}
use mathlib.Core.Option.{Option, none, some}
use mathlib.Core.List.{List, [], ◌∷◌, reverse}
use trustgrant.Prelude.Tests.{leb, ltb, eqb, if◌then◌else◌}

abbrev pub Text : Type 0
Text = List ℕ

abbrev pub codes : String → Text
codes String.[] = []
codes (String.◌∷◌ letter rest) = code letter ∷ codes rest

-- The bytes of a character in UTF-8.
unfoldable pub utf8_width : ℕ → ℕ
utf8_width c = if ltb c 0x80 then 1 else if ltb c 0x800 then 2 else if ltb c 0x10000 then 3 else 4

-- `str::len`
unfoldable pub byte_len : Text → ℕ
unfolding utf8_width
byte_len [] = 0
byte_len (c ∷ s) = utf8_width c + byte_len s

-- `char::is_control`: the general category Cc.
unfoldable pub is_control : ℕ → Bool
is_control c = ltb c 0x20 || (leb 0x7F c && leb c 0x9F)

-- `char::is_whitespace`: the property White_Space.
unfoldable pub is_whitespace : ℕ → Bool
is_whitespace c =
    (leb 0x09 c && leb c 0x0D)
    || eqb c 0x20
    || eqb c 0x85
    || eqb c 0xA0
    || eqb c 0x1680
    || (leb 0x2000 c && leb c 0x200A)
    || eqb c 0x2028
    || eqb c 0x2029
    || eqb c 0x202F
    || eqb c 0x205F
    || eqb c 0x3000

unfoldable pub trim_start : Text → Text
unfolding is_whitespace
trim_start [] = []
trim_start (c ∷ s) = if is_whitespace c then trim_start s else c ∷ s

-- `str::trim`
unfoldable pub trim : Text → Text
unfolding trim_start
trim s = reverse (trim_start (reverse (trim_start s)))

-- `str::find` of one character, in characters; and the text before it and from it on.
unfoldable pub split_at_char : ℕ → Text → Option (Text × Text)
split_at_char d [] = none
split_at_char d (c ∷ s) =
    if eqb c d
    then some ([], c ∷ s)
    else elim (split_at_char d s) [ none ↦ none | some (before, rest) ↦ some (c ∷ before, rest) ]

-- `str::strip_prefix` and `str::strip_suffix` of one character.
unfoldable pub strip_prefix : ℕ → Text → Option Text
strip_prefix d [] = none
strip_prefix d (c ∷ s) = if eqb c d then some s else none

unfoldable pub strip_suffix : ℕ → Text → Option Text
strip_suffix d [] = none
strip_suffix d (c ∷ []) = if eqb c d then some [] else none
strip_suffix d (c ∷ c' ∷ s) = elim (strip_suffix d (c' ∷ s)) [ none ↦ none | some t ↦ some (c ∷ t) ]

-- `str::ends_with` one character.
unfoldable pub ends_with_char : ℕ → Text → Bool
ends_with_char d [] = false
ends_with_char d (c ∷ []) = eqb c d
ends_with_char d (c ∷ c' ∷ s) = ends_with_char d (c' ∷ s)

-- `str::starts_with`, `str::ends_with` and `str::contains` of a text.
unfoldable pub starts_with_text : Text → Text → Bool
starts_with_text [] s = true
starts_with_text (c ∷ t) [] = false
starts_with_text (c ∷ t) (d ∷ s) = eqb c d && starts_with_text t s

unfoldable pub ends_with_text : Text → Text → Bool
unfolding starts_with_text
ends_with_text t s = starts_with_text (reverse t) (reverse s)

unfoldable pub contains_text : Text → Text → Bool
unfolding starts_with_text
contains_text t [] = starts_with_text t []
contains_text t (c ∷ s) = starts_with_text t (c ∷ s) || contains_text t s

-- `char::to_ascii_lowercase`
unfoldable pub ascii_lower : ℕ → ℕ
ascii_lower c = if leb b'A' c && leb c b'Z' then c + 32 else c

unfoldable pub map_chars : (ℕ → ℕ) → Text → Text
map_chars f [] = []
map_chars f (c ∷ s) = f c ∷ map_chars f s
