-- ===== src/Prelude/Lists.antt =====
-- Lists measured by native numbers, and the predicates and tests on lists that the code uses.
use Prim.Native.Nat.{ℕ, zero, suc, ◌+◌}
use mathlib.Core.Path.{◌≡◌, refl, ap}
use mathlib.Core.Logic.{◌↔◌, ◌⊎◌, inl, inr}
use mathlib.Core.Bool.{Bool, true, false, ◌&&◌, ◌||◌}
use mathlib.Core.Option.{Option, none, some}
use mathlib.Core.List.{List, [], ◌∷◌, ◌++◌}
use native.Mathlib.Omega.{arith}
use trustgrant.Prelude.Tests.{if◌then◌else◌, Bool-cases}

module _ {ℓ} {A : Type ℓ} where
  abbrev pub length : List A → ℕ
  length [] = 0
  length (x ∷ xs) = suc (length xs)

  abbrev pub get_elem? : List A → ℕ → Option A
  get_elem? [] i = none
  get_elem? (x ∷ xs) zero = some x
  get_elem? (x ∷ xs) (suc i) = get_elem? xs i

  -- A write out of bounds changes nothing.
  abbrev pub set : List A → ℕ → A → List A
  set [] i v = []
  set (x ∷ xs) zero v = v ∷ xs
  set (x ∷ xs) (suc i) v = x ∷ set xs i v

  abbrev pub is_empty : List A → Bool
  is_empty [] = true
  is_empty (x ∷ xs) = false

  abbrev pub is_some : Option A → Bool
  is_some none = false
  is_some (some a) = true

  -- `Option<Vec<T>>::unwrap_or_default`
  abbrev pub unwrap_or_default : Option (List A) → List A
  unwrap_or_default none = []
  unwrap_or_default (some xs) = xs

  abbrev pub unwrap_or : A → Option A → A
  unwrap_or d none = d
  unwrap_or d (some a) = a

  pub length-append : (xs ys : List A) → length (xs ++ ys) ≡ length xs + length ys
  length-append [] ys = omega arith
  length-append (x ∷ xs) ys = omega (arith, length-append xs ys)

  -- `iter().any` and `iter().all`
  unfoldable pub any : (A → Bool) → List A → Bool
  any p [] = false
  any p (x ∷ xs) = p x || any p xs

  unfoldable pub all : (A → Bool) → List A → Bool
  all p [] = true
  all p (x ∷ xs) = p x && all p xs

  -- `iter().find`
  unfoldable pub find : (A → Bool) → List A → Option A
  find p [] = none
  find p (x ∷ xs) = if p x then some x else find p xs

-- Predicates on lists by recursion, which the tactics read.
module _ {ℓ} {A : Type ℓ} where
  abbrev pub All : (A → Type 0) → List A → Type 0
  All P [] = Unit
  All P (x ∷ xs) = P x × All P xs

  abbrev pub Some : (A → Type 0) → List A → Type 0
  Some P [] = ⊥
  Some P (x ∷ xs) = P x ⊎ Some P xs

-- No element stands twice.
abbrev pub Distinct : {A : Type 0} → List A → Type 0
Distinct [] = Unit
Distinct (x ∷ xs) = All (λ y. ¬ (x ≡ y)) xs × Distinct xs

module _ {ℓ} {A : Type ℓ} where
  pub All-append : (P : A → Type 0) (xs ys : List A) → All P xs → All P ys → All P (xs ++ ys)
  All-append P [] ys h k = k
  All-append P (x ∷ xs) ys (p, h) k = (p, All-append P xs ys h k)

  pub All-map : {P Q : A → Type 0} → ((a : A) → P a → Q a) → (xs : List A) → All P xs → All Q xs
  All-map f [] h = tt
  All-map f (x ∷ xs) (p, h) = (f x p, All-map f xs h)

  pub Some-map : {P Q : A → Type 0} → ((a : A) → P a → Q a) → (xs : List A) → Some P xs → Some Q xs
  Some-map f [] h = elim h [ ]
  Some-map f (x ∷ xs) (inl p) = inl (f x p)
  Some-map f (x ∷ xs) (inr s) = inr (Some-map f xs s)

  -- A Boolean search decides the predicate that its test decides.
  module _ (P : A → Type 0) (p : A → Bool) (decides : (a : A) → (p a ≡ true) ↔ P a) where
    pub any_sound : (xs : List A) → any p xs ≡ true → Some P xs
    unfolding any
    any_sound [] h = cc
    any_sound (x ∷ xs) h = elim (Bool-cases (p x)) [
      | inl e ↦ inl ((decides x).0 e)
      | inr e ↦ inr (any_sound xs (rw e at h))
    ]

    pub any_complete : (xs : List A) → Some P xs → any p xs ≡ true
    unfolding any
    any_complete [] h = elim h [ ]
    any_complete (x ∷ xs) (inl h) = rw ((decides x).1 h)
    any_complete (x ∷ xs) (inr h) = elim (Bool-cases (p x)) [
      | inl e ↦ rw e
      | inr e ↦ rw e (any_complete xs h)
    ]

    pub any_iff : (xs : List A) → (any p xs ≡ true) ↔ Some P xs
    any_iff xs = (any_sound xs, any_complete xs)

    pub all_sound : (xs : List A) → all p xs ≡ true → All P xs
    unfolding all
    all_sound [] h = tt
    all_sound (x ∷ xs) h =
        let e : p x ≡ true = ground arith in ((decides x).0 e, all_sound xs (rw e at h))

    pub all_complete : (xs : List A) → All P xs → all p xs ≡ true
    unfolding all
    all_complete [] h = refl
    all_complete (x ∷ xs) (h, k) = rw ((decides x).1 h) (all_complete xs k)

    pub all_iff : (xs : List A) → (all p xs ≡ true) ↔ All P xs
    all_iff xs = (all_sound xs, all_complete xs)

  -- What `find` returns passes the test.
  pub find_passes : (p : A → Bool) (xs : List A) (a : A) → find p xs ≡ some a → p a ≡ true
  unfolding find
  find_passes p [] a h = cc
  find_passes p (x ∷ xs) a h = elim (Bool-cases (p x)) [
    | inl e ↦ let same : x ≡ a = ground arith in rw same at e
    | inr e ↦ find_passes p xs a (rw e at h)
  ]

  pub any-false : (p : A → Bool) (xs : List A) → any p xs ≡ false → All (λ a. p a ≡ false) xs
  unfolding any
  any-false p [] h = tt
  any-false p (x ∷ xs) h = elim (Bool-cases (p x)) [
    | inl e ↦ cc (rw e at h)
    | inr e ↦ (e, any-false p xs (rw e at h))
  ]

module _ {A : Type 0} where
  -- The first element of which a predicate holds.
  abbrev pub First : (A → Type 0) → List A → A → Type 0
  First P [] a = ⊥
  First P (x ∷ xs) a = P x × (x ≡ a) ⊎ (¬ P x) × First P xs a

  module _ (P : A → Type 0) (p : A → Bool) (decides : (a : A) → (p a ≡ true) ↔ P a) where
    pub find_sound : (xs : List A) (a : A) → find p xs ≡ some a → First P xs a
    unfolding find
    find_sound [] a h = cc
    find_sound (x ∷ xs) a h = elim (Bool-cases (p x)) [
      | inl e ↦ inl ((decides x).0 e, ground arith)
      | inr e ↦ inr (λ q. cc ((decides x).1 q), find_sound xs a (rw e at h))
    ]

    pub find_complete : (xs : List A) (a : A) → First P xs a → find p xs ≡ some a
    unfolding find
    find_complete [] a h = elim h [ ]
    find_complete (x ∷ xs) a (inl (q, e)) = rw ((decides x).1 q) (ap some e)
    find_complete (x ∷ xs) a (inr (q, h)) = elim (Bool-cases (p x)) [
      | inl e ↦ absurd (q ((decides x).0 e))
      | inr e ↦ rw e (find_complete xs a h)
    ]

    pub find_iff : (xs : List A) (a : A) → (find p xs ≡ some a) ↔ First P xs a
    find_iff xs a = (find_sound xs a, find_complete xs a)

module _ {A : Type 0} (P : A → Type 0) (p : A → Bool) (decides : (a : A) → (p a ≡ true) ↔ P a) where
  pub none_iff : (xs : List A) → (any p xs ≡ false) ↔ All (λ a. ¬ P a) xs
  none_iff xs =
      (λ h. All-map (λ a e q. cc ((decides a).1 q)) xs (any-false p xs h), none_complete xs)
    where
      no_one : (xs : List A) → All (λ a. ¬ P a) xs → Some P xs → ⊥
      no_one [] h s = s
      no_one (x ∷ xs) (q, h) (inl s) = q s
      no_one (x ∷ xs) (q, h) (inr s) = no_one xs h s

      none_complete : (xs : List A) → All (λ a. ¬ P a) xs → any p xs ≡ false
      none_complete xs h = elim (Bool-cases (any p xs)) [
        | inr e ↦ e
        | inl e ↦ absurd (no_one xs h (any_sound P p decides xs e))
      ]
