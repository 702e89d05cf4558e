-- ===== src/Prelude/Results.antt =====
-- `Result<T, E>`: fallible code, its `do` blocks, and `collect` over a sequence of results.
use mathlib.Core.Path.{◌≡◌, refl, sym, ap}
use mathlib.Core.Logic.{◌↔◌, ◌⊎◌, inl, inr}
use mathlib.Core.Bool.{Bool, true, false}
use mathlib.Core.Option.{Option, none, some}
use mathlib.Core.List.{List, [], ◌∷◌}
use trustgrant.Prelude.Lists.{All}

pub data Result {ℓ} (E : Type 0) (A : Type ℓ) : Type ℓ where
  ok : A → Result E A
  err : E → Result E A

infixl 5 ◌>>=◌
-- The first error ends a `do` block.
abbrev pub ◌>>=◌ {ℓ κ} :
    {E : Type 0} {A : Type ℓ} {B : Type κ} → Result E A → (A → Result E B) → Result E B
err problem >>= next = err problem
ok value >>= next = next value

infixl 5 ◌>>◌
abbrev pub ◌>>◌ {ℓ} : {E : Type 0} {B : Type ℓ} → Result E (Unit {0}) → Result E B → Result E B
check >> rest = check >>= λ _. rest

-- `if !test { return Err(e) }`
abbrev pub guard : {E : Type 0} → Bool → E → Result E (Unit {0})
guard false problem = err problem
guard true problem = ok tt

-- `Option::ok_or`
abbrev pub ok_or {ℓ} : {E : Type 0} {A : Type ℓ} → Option A → E → Result E A
ok_or none e = err e
ok_or (some a) e = ok a

-- Inversion of a successful bind, for proofs where the parts stay shut.
pub >>=-eq-ok {ℓ κ} :
    {E : Type 0} {A : Type ℓ} {B : Type κ} (m : Result E A) (next : A → Result E B) {result : B}
    → (m >>= next) ≡ ok result
    → (x : A) × (m ≡ ok x) × (next x ≡ ok result)
>>=-eq-ok (err problem) next h = cc
>>=-eq-ok (ok x) next h = (x, refl, h)

pub guard-eq-ok : {E : Type 0} (b : Bool) (e : E) → guard b e ≡ ok tt → b ≡ true
guard-eq-ok true e h = refl
guard-eq-ok false e h = cc

pub Result-cases : {E : Type 0} (m : Result E (Unit {0})) → (m ≡ ok tt) ⊎ ((e : E) × (m ≡ err e))
Result-cases (ok tt) = inl refl
Result-cases (err e) = inr (e, refl)

-- A sequence of checks passes when each does.
pub guard_iff : {E : Type 0} (b : Bool) (e : E) → (guard b e ≡ ok tt) ↔ (b ≡ true)
guard_iff true e = (λ _. refl, λ _. refl)
guard_iff false e = (λ h. cc, λ h. cc)

pub then_iff :
    {E : Type 0} (m : Result E (Unit {0})) (k : Result E (Unit {0}))
    → ((m >> k) ≡ ok tt) ↔ ((m ≡ ok tt) × (k ≡ ok tt))
then_iff (ok tt) k = (λ h. (refl, h), λ h. h.1)
then_iff (err e) k = (λ h. cc, λ h. cc)

-- A check before code that gives a value.
pub check_iff :
    {E B : Type 0} (m : Result E (Unit {0})) (k : Result E B) (b : B)
    → ((m >> k) ≡ ok b) ↔ ((m ≡ ok tt) × (k ≡ ok b))
check_iff (ok tt) k b = (λ h. (refl, h), λ h. h.1)
check_iff (err e) k b = (λ h. cc, λ h. cc)

pub ok_iff : {E B : Type 0} (a b : B) → (◌≡◌ {A = Result E B} (ok a) (ok b)) ↔ (b ≡ a)
ok_iff {E} {B} a b = (λ h. sym (ap value h), λ e. ap ok (sym e))
  where
    value : Result E B → B
    value (ok x) = x
    value (err e) = a

module _ {ℓ κ} {E : Type 0} {A : Type ℓ} {B : Type κ} where
  -- `map(f).collect::<Result<Vec<_>, _>>()`: stops at the first error.
  unfoldable pub traverse : (A → Result E B) → List A → Result E (List B)
  traverse f [] = ok []
  traverse f (x ∷ xs) = do y ← f x; ys ← traverse f xs; ok (y ∷ ys)

  -- `Option::map(f).transpose()`
  unfoldable pub traverse_option : (A → Result E B) → Option A → Result E (Option B)
  traverse_option f none = ok none
  traverse_option f (some a) = do b ← f a; ok (some b)

  -- What holds of every result of `f` holds of every element that is collected.
  pub traverse-All :
      (P : B → Type 0) (f : A → Result E B)
      → ((a : A) (b : B) → f a ≡ ok b → P b)
      → (xs : List A) (ys : List B) → traverse f xs ≡ ok ys
      → All P ys
  unfolding traverse
  traverse-All P f each [] ys h = let e : ys ≡ [] = cc in rw e tt
  traverse-All P f each (x ∷ xs) ys h =
      let (y, here, h') = >>=-eq-ok (f x) _ h in
      let (rest, later, h'') = >>=-eq-ok (traverse f xs) _ h' in
      let e : ys ≡ y ∷ rest = cc in rw e (each x y here, traverse-All P f each xs rest later)

-- Two lists of which the elements at one place are related.
abbrev pub Related : {A B : Type 0} → (A → B → Type 0) → List A → List B → Type 0
Related R [] [] = Unit
Related R (x ∷ xs) (y ∷ ys) = R x y × Related R xs ys
Related R [] (y ∷ ys) = ⊥
Related R (x ∷ xs) [] = ⊥

pub traverse-Related :
    {E A B : Type 0} (R : A → B → Type 0) (f : A → Result E B)
    → ((a : A) (b : B) → f a ≡ ok b → R a b)
    → (xs : List A) (ys : List B) → traverse f xs ≡ ok ys
    → Related R xs ys
unfolding traverse
traverse-Related R f each [] ys h = let e : ys ≡ [] = cc in rw e tt
traverse-Related R f each (x ∷ xs) ys h =
    let (y, here, h') = >>=-eq-ok (f x) _ h in
    let (rest, later, h'') = >>=-eq-ok (traverse f xs) _ h' in
    let e : ys ≡ y ∷ rest = cc in rw e (each x y here, traverse-Related R f each xs rest later)

pub Related-traverse :
    {E A B : Type 0} (R : A → B → Type 0) (f : A → Result E B)
    → ((a : A) (b : B) → R a b → f a ≡ ok b)
    → (xs : List A) (ys : List B) → Related R xs ys
    → traverse f xs ≡ ok ys
unfolding traverse
Related-traverse R f each [] [] r = refl
Related-traverse R f each (x ∷ xs) (y ∷ ys) (here, later) =
    rw (each x y here, Related-traverse R f each xs ys later) refl
Related-traverse R f each [] (y ∷ ys) r = elim r [ ]
Related-traverse R f each (x ∷ xs) [] r = elim r [ ]

abbrev pub option_map : {A B : Type 0} → (A → B) → Option A → Option B
option_map f none = none
option_map f (some a) = some (f a)

-- `(!list.is_empty()).then_some(list)`
abbrev pub non_empty : {A : Type 0} → List A → Option (List A)
non_empty [] = none
non_empty (x ∷ xs) = some (x ∷ xs)
