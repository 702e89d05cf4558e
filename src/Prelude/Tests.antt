-- ===== src/Prelude/Tests.antt =====
-- Boolean tests, the conditional, and equality tests with their law.
use Prim.Native.Nat.{ℕ, ◌≤◌, ◌<◌, compare, Ordering}
use mathlib.Core.Path.{◌≡◌, refl, ap, sym, ◌∙◌}
use mathlib.Core.Logic.{◌↔◌, ◌⊎◌, inl, inr}
use mathlib.Core.Bool.{Bool, true, false, ◌&&◌}
use mathlib.Core.Option.{Option, none, some}
use mathlib.Core.List.{List, [], ◌∷◌}
use native.Mathlib.Omega.{arith}

-- These compute to `compare`, which `ground` and `grind` read with no lemma listed.
abbrev pub ltb : ℕ → ℕ → Bool
ltb a b = elim (compare a b) [ Ordering.lt ↦ true | _ ↦ false ]

abbrev pub leb : ℕ → ℕ → Bool
leb a b = elim (compare a b) [ Ordering.gt ↦ false | _ ↦ true ]

abbrev pub eqb : ℕ → ℕ → Bool
eqb a b = elim (compare a b) [ Ordering.eq ↦ true | _ ↦ false ]

infix 1 if◌then◌else◌
abbrev pub if◌then◌else◌ {ℓ} : {A : Type ℓ} → Bool → A → A → A
if true then x else y = x
if false then x else y = y

pub eqb_iff : (a b : ℕ) → (eqb a b ≡ true) ↔ (a ≡ b)
eqb_iff a b = ground arith

pub leb_iff : (a b : ℕ) → (leb a b ≡ true) ↔ (a ≤ b)
leb_iff a b = ground arith

pub ltb_iff : (a b : ℕ) → (ltb a b ≡ true) ↔ (a < b)
ltb_iff a b = ground arith

-- To split on a computed value and keep the equation.
pub Bool-cases : (b : Bool) → (b ≡ true) ⊎ (b ≡ false)
Bool-cases true = inl refl
Bool-cases false = inr refl

pub Option-cases {ℓ} : {A : Type ℓ} (o : Option A) → (o ≡ none) ⊎ ((a : A) × (o ≡ some a))
Option-cases none = inl refl
Option-cases (some a) = inr (a, refl)

pub and-eq-true : (a b : Bool) → ((a && b) ≡ true) ↔ ((a ≡ true) × (b ≡ true))
and-eq-true a b = ground arith

infix 50 ◌==◌
-- `==` of a type whose `PartialEq` is equality.
pub record Eq {ℓ} (T : Type ℓ) : Type ℓ where
  pub beq : (left right : T) → Bool
  pub beq_iff : (left right : T) → (beq left right ≡ true) ↔ (left ≡ right)

instance abbrev pub nat_eq : Eq ℕ
nat_eq = record { beq = eqb; beq_iff = eqb_iff }

abbrev pub ◌==◌ {ℓ} : {T : Type ℓ} ⦃e : Eq T⦄ → (left right : T) → Bool
◌==◌ ⦃e⦄ left right = e.beq left right

module _ {ℓ} {A : Type ℓ} ⦃e : Eq A⦄ where
  pub beq_refl : (a : A) → (a == a) ≡ true
  beq_refl a = (e.beq_iff a a).1 refl

  unfoldable pub eq_list : List A → List A → Bool
  eq_list [] [] = true
  eq_list (x ∷ xs) (y ∷ ys) = x == y && eq_list xs ys
  eq_list [] (y ∷ ys) = false
  eq_list (x ∷ xs) [] = false

  pub eq_list_sound : (xs ys : List A) → eq_list xs ys ≡ true → xs ≡ ys
  unfolding eq_list
  eq_list_sound [] [] h = refl
  eq_list_sound (x ∷ xs) (y ∷ ys) h =
      let (p, q) = (and-eq-true (x == y) (eq_list xs ys)).0 h in
      let here : x ≡ y = (e.beq_iff x y).0 p in let later : xs ≡ ys = eq_list_sound xs ys q in cc
  eq_list_sound [] (y ∷ ys) h = cc
  eq_list_sound (x ∷ xs) [] h = cc

  pub eq_list_refl : (xs : List A) → eq_list xs xs ≡ true
  unfolding eq_list
  eq_list_refl [] = refl
  eq_list_refl (x ∷ xs) = rw (beq_refl x) (eq_list_refl xs)

  pub eq_list_iff : (xs ys : List A) → (eq_list xs ys ≡ true) ↔ (xs ≡ ys)
  eq_list_iff xs ys = (eq_list_sound xs ys, λ p. rw p (eq_list_refl ys))

  unfoldable pub eq_option : Option A → Option A → Bool
  eq_option none none = true
  eq_option (some x) (some y) = x == y
  eq_option none (some y) = false
  eq_option (some x) none = false

  pub eq_option_iff : (a b : Option A) → (eq_option a b ≡ true) ↔ (a ≡ b)
  unfolding eq_option
  eq_option_iff none none = (λ _. refl, λ _. refl)
  eq_option_iff (some x) (some y) = (λ h. cc ((e.beq_iff x y).0 h), λ p. (e.beq_iff x y).1 (cc))
  eq_option_iff none (some y) = (λ h. cc, λ p. cc)
  eq_option_iff (some x) none = (λ h. cc, λ p. cc)

instance abbrev pub list_eq {ℓ} : {A : Type ℓ} ⦃e : Eq A⦄ → Eq (List A)
list_eq = record { beq = eq_list; beq_iff = eq_list_iff }

instance abbrev pub option_eq {ℓ} : {A : Type ℓ} ⦃e : Eq A⦄ → Eq (Option A)
option_eq = record { beq = eq_option; beq_iff = eq_option_iff }

module _ {ℓ κ} {A : Type ℓ} {B : Type κ} where
  -- A type that another one represents is compared there.
  abbrev pub eq_via : (f : A → B) (g : B → A) → ((a : A) → g (f a) ≡ a) → Eq B → Eq A
  eq_via f g back e = record {
    beq = λ a b. e.beq (f a) (f b);
    beq_iff = λ a b. (
      (λ h. sym (back a) ∙ ap g ((e.beq_iff (f a) (f b)).0 h) ∙ back b),
      λ p. (e.beq_iff (f a) (f b)).1 (ap f p),
    );
  }

  abbrev eq_pair : ⦃e : Eq A⦄ ⦃d : Eq B⦄ → A × B → A × B → Bool
  eq_pair p q = p.0 == q.0 && p.1 == q.1

  pub eq_pair_iff : ⦃e : Eq A⦄ ⦃d : Eq B⦄ (p q : A × B) → (eq_pair p q ≡ true) ↔ (p ≡ q)
  eq_pair_iff ⦃e⦄ ⦃d⦄ p q = (
    (λ h.
        let (l, r) = (and-eq-true (p.0 == q.0) (p.1 == q.1)).0 h in
        λ i. ((e.beq_iff p.0 q.0).0 l i, (d.beq_iff p.1 q.1).0 r i)),
    λ h. (and-eq-true _ _).1 (
      (e.beq_iff p.0 q.0).1 (ap (λ (x : A × B). x.0) h),
      (d.beq_iff p.1 q.1).1 (ap (λ (x : A × B). x.1) h),
    ),
  )

instance abbrev pub pair_eq {ℓ κ} : {A : Type ℓ} {B : Type κ} ⦃e : Eq A⦄ ⦃d : Eq B⦄ → Eq (A × B)
pair_eq = record { beq = eq_pair; beq_iff = eq_pair_iff }
