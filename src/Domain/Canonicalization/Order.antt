-- ===== src/Domain/Canonicalization/Order.antt =====
-- canonicalization.rs: the order of `Utf16Key`, described on code points. UTF-16 writes those beyond the
-- basic plane with units from 55296 to 57343, so they stand before the points from 57344 to 65535.
use trustgrant.Prelude.{
  ℕ, ◌+◌, ◌-◌, ◌*◌, ◌/◌, ◌%◌, ◌≤◌, ◌<◌, true, ◌&&◌, List, [], ◌∷◌, ◌≡◌, ◌↔◌, ◌⊎◌, inl, inr, refl,
  arith, All, if◌then◌else◌, ltb, leb, Bool-cases,
}
use trustgrant.Prelude.Text.{Text}
use trustgrant.Domain.Canonicalization.{encode_utf16, is_less}

-- A Unicode scalar value, of which every `str` is made.
abbrev pub IsScalar : ℕ → Type 0
IsScalar c = (c < 55296) ⊎ ((57344 ≤ c) × (c < 1114112))

abbrev pub IsScalars : Text → Type 0
IsScalars s = All IsScalar s

-- The place of a code point: those at the end of the basic plane come after all others.
unfoldable pub place : ℕ → ℕ
place c = if leb 57344 c && ltb c 65536 then c + 1114112 else c

-- The first point in which two texts differ decides, and a text comes before its continuations.
abbrev pub Precedes : Text → Text → Type 0
Precedes [] [] = ⊥
Precedes [] (d ∷ t) = Unit
Precedes (c ∷ s) [] = ⊥
Precedes (c ∷ s) (d ∷ t) = (place c < place d) ⊎ ((c ≡ d) × Precedes s t)

-- The two units of a point beyond the basic plane.
unfoldable high : ℕ → ℕ
high c = 55296 + (c - 65536) / 1024

unfoldable low : ℕ → ℕ
low c = 56320 + (c - 65536) % 1024

-- What arithmetic has to know of them.
record IsPair (c h l : ℕ) : Type 0 where
  high_from : 55296 ≤ h
  high_to : h < 56320
  low_from : 56320 ≤ l
  low_to : l < 57344
  value : c + 56613888 ≡ 1024 * h + l

units-IsPair : (c : ℕ) → 65536 ≤ c → c < 1114112 → IsPair c (high c) (low c)
unfolding high low
units-IsPair c beyond scalar = record {
  high_from = omega arith;
  high_to = omega arith;
  low_from = omega arith;
  low_to = omega arith;
  value = omega arith;
}

encode_utf16-basic : (c : ℕ) (s : Text) → c < 65536 → encode_utf16 (c ∷ s) ≡ c ∷ encode_utf16 s
unfolding encode_utf16
encode_utf16-basic c s basic = ground arith

encode_utf16-pair :
    (c : ℕ) (s : Text) → 65536 ≤ c → encode_utf16 (c ∷ s) ≡ high c ∷ low c ∷ encode_utf16 s
unfolding encode_utf16 high low
encode_utf16-pair c s beyond = ground arith

is_less-cons :
    (l r : ℕ) (left right : List ℕ)
    → (is_less (l ∷ left) (r ∷ right) ≡ true) ↔ ((l < r) ⊎ ((l ≡ r) × (is_less left right ≡ true)))
unfolding is_less
is_less-cons l r left right = ground arith

data Plane (c : ℕ) : Type 0 where
  in_basic : c < 65536 → Plane c
  in_beyond : 65536 ≤ c → c < 1114112 → Plane c

plane : (c : ℕ) → IsScalar c → Plane c
plane c scalar = elim (Bool-cases (ltb c 65536)) [
  | inl e ↦ in_basic (ground (arith, e))
  | inr e ↦ in_beyond (ground (arith, e)) (ground (arith, scalar))
]

-- The place of a point, without a test.
place_basic :
    (c : ℕ)
    → IsScalar c
    → c < 65536
    → ((c < 55296) × (place c ≡ c)) ⊎ ((57344 ≤ c) × (place c ≡ c + 1114112))
unfolding place
place_basic c scalar basic = ground arith

place_beyond : (c : ℕ) → 65536 ≤ c → place c ≡ c
unfolding place
place_beyond c beyond = ground arith

basic_basic :
    (c d : ℕ) → IsScalar c → IsScalar d → c < 65536 → d < 65536 → (c < d) ↔ (place c < place d)
basic_basic c d sc sd bc bd = ground (arith, place_basic c sc bc, place_basic d sd bd)

basic_beyond :
    (c d h l : ℕ)
    → IsScalar c
    → c < 65536
    → 65536 ≤ d
    → d < 1114112
    → IsPair d h l
    → ¬ (c ≡ h) × ((c < h) ↔ (place c < place d))
basic_beyond c d h l sc bc beyond scalar p =
    ground (arith, place_basic c sc bc, place_beyond d beyond, p.high_from, p.high_to)

beyond_basic :
    (c d h l : ℕ)
    → IsScalar d
    → d < 65536
    → 65536 ≤ c
    → c < 1114112
    → IsPair c h l
    → ¬ (h ≡ d) × ((h < d) ↔ (place c < place d))
beyond_basic c d h l sd bd beyond scalar p =
    ground (arith, place_basic d sd bd, place_beyond c beyond, p.high_from, p.high_to)

pair_less :
    (c d h h' l l' : ℕ)
    → IsPair c h l
    → IsPair d h' l'
    → ((h < h') ⊎ ((h ≡ h') × (l < l'))) ↔ (c < d)
pair_less c d h h' l l' p q =
    ground (arith, p.low_from, p.low_to, q.low_from, q.low_to, p.value, q.value)

pair_same : (c d h h' l l' : ℕ) → IsPair c h l → IsPair d h' l' → ((h ≡ h') × (l ≡ l')) ↔ (c ≡ d)
pair_same c d h h' l l' p q =
    ground (arith, p.low_from, p.low_to, q.low_from, q.low_to, p.value, q.value)

-- One step of the comparison, for each pair of planes.
step :
    (c d : ℕ) (s t : Text)
    → IsScalar c
    → IsScalar d
    → Plane c
    → Plane d
    → (is_less (encode_utf16 s) (encode_utf16 t) ≡ true) ↔ Precedes s t
    → (is_less (encode_utf16 (c ∷ s)) (encode_utf16 (d ∷ t)) ≡ true) ↔ Precedes (c ∷ s) (d ∷ t)
step c d s t sc sd (in_basic bc) (in_basic bd) ih =
    rw (encode_utf16-basic c s bc, encode_utf16-basic d t bd)
      (ground (
        arith,
        is_less-cons c d (encode_utf16 s) (encode_utf16 t),
        basic_basic c d sc sd bc bd,
        ih,
      ))
step c d s t sc sd (in_basic bc) (in_beyond bd ld) ih =
    let (apart, less) = basic_beyond c d (high d) (low d) sc bc bd ld (units-IsPair d bd ld) in
    rw (encode_utf16-basic c s bc, encode_utf16-pair d t bd)
      (ground
        (arith, is_less-cons c (high d) (encode_utf16 s) (low d ∷ encode_utf16 t), apart, less))
step c d s t sc sd (in_beyond bc lc) (in_basic bd) ih =
    let (apart, less) = beyond_basic c d (high c) (low c) sd bd bc lc (units-IsPair c bc lc) in
    rw (encode_utf16-pair c s bc, encode_utf16-basic d t bd)
      (ground
        (arith, is_less-cons (high c) d (low c ∷ encode_utf16 s) (encode_utf16 t), apart, less))
step c d s t sc sd (in_beyond bc lc) (in_beyond bd ld) ih =
    let p = units-IsPair c bc lc in
    let q = units-IsPair d bd ld in
    let less = pair_less c d (high c) (high d) (low c) (low d) p q in
    let same = pair_same c d (high c) (high d) (low c) (low d) p q in
    rw (encode_utf16-pair c s bc, encode_utf16-pair d t bd, place_beyond c bc, place_beyond d bd)
      (ground (
        arith,
        is_less-cons (high c) (high d) (low c ∷ encode_utf16 s) (low d ∷ encode_utf16 t),
        is_less-cons (low c) (low d) (encode_utf16 s) (encode_utf16 t),
        less,
        same,
        ih,
      ))

-- One text is before another in the order of their UTF-16 code units exactly when the first point in
-- which they differ has the earlier place, or it ends where the other goes on.
pub is_less-encode_utf16_iff :
    (s t : Text)
    → IsScalars s
    → IsScalars t
    → (is_less (encode_utf16 s) (encode_utf16 t) ≡ true) ↔ Precedes s t
unfolding is_less encode_utf16
is_less-encode_utf16_iff [] [] hs ht = (λ h. cc, λ h. absurd h)
is_less-encode_utf16_iff [] (d ∷ t) hs (sd, ht) = elim (plane d sd) [
  | in_basic bd ↦ rw (encode_utf16-basic d t bd) (λ h. tt, λ h. refl)
  | in_beyond bd ld ↦ rw (encode_utf16-pair d t bd) (λ h. tt, λ h. refl)
]
is_less-encode_utf16_iff (c ∷ s) [] (sc, hs) ht = elim (plane c sc) [
  | in_basic bc ↦ rw (encode_utf16-basic c s bc) (λ h. cc, λ h. absurd h)
  | in_beyond bc lc ↦ rw (encode_utf16-pair c s bc) (λ h. cc, λ h. absurd h)
]
is_less-encode_utf16_iff (c ∷ s) (d ∷ t) (sc, hs) (sd, ht) =
    step c d s t sc sd (plane c sc) (plane d sd) (is_less-encode_utf16_iff s t hs ht)

pub Precedes-trans : (a b c : Text) → Precedes a b → Precedes b c → Precedes a c
Precedes-trans [] [] c h k = absurd h
Precedes-trans [] (y ∷ b) [] h k = absurd k
Precedes-trans [] (y ∷ b) (z ∷ c) h k = tt
Precedes-trans (x ∷ a) [] c h k = absurd h
Precedes-trans (x ∷ a) (y ∷ b) [] h k = absurd k
Precedes-trans (x ∷ a) (y ∷ b) (z ∷ c) h k = ground (arith, Precedes-trans a b c)

place-injective : (c d : ℕ) → IsScalar c → IsScalar d → place c ≡ place d → c ≡ d
unfolding place
place-injective c d sc sd h = ground arith

-- Of two texts one is before the other, or they are the same.
pub Precedes-total :
    (s t : Text) → IsScalars s → IsScalars t → Precedes s t ⊎ ((s ≡ t) ⊎ Precedes t s)
Precedes-total [] [] hs ht = inr (inl refl)
Precedes-total [] (d ∷ t) hs ht = inl tt
Precedes-total (c ∷ s) [] hs ht = inr (inr tt)
Precedes-total (c ∷ s) (d ∷ t) (sc, hs) (sd, ht) =
    grind (arith, place-injective c d sc sd, Precedes-total s t hs ht)
