-- ===== src/Canonical/Lists.antt =====
-- What is written of a list between brackets determines the list.
use mathlib.Core.List.{append_assoc}
use trustgrant.Prelude.{ℕ, String, List, [], ◌∷◌, ◌≡◌, refl, sym, ap, ◌∙◌, arith, ok, err, ok_iff}
use trustgrant.Prelude.Text.{codes}
use trustgrant.Errors.Kinds.{TrustGrantError}
use trustgrant.Canonical.Writer.{
  Bytes, Written, ◌then◌, write_bytes, write_rest, write_separated, write_array,
}
use trustgrant.Canonical.Unique.{Splits, then-Splits, after-Splits, same-Splits, map-Splits}
use trustgrant.Canonical.Values.{Opens, Opens-then, clash, bytes-Opens}

pub then_assoc : (m n k : Written) → (m then n) then k ≡ m then (n then k)
unfolding ◌then◌
then_assoc (ok a) (ok b) (ok c) = ap ok (append_assoc a b c)
then_assoc (ok a) (ok b) (err e) = refl
then_assoc (ok a) (err e) k = refl
then_assoc (err e) n k = refl

-- Nothing before the closing text.
empty-Opens :
    (c : ℕ) (close : String) (t : Bytes)
    → codes close ≡ c ∷ t
    → Opens c (ok [] then write_bytes close)
unfolding ◌then◌ write_bytes
empty-Opens c close t h = record {
  opens = λ x p. (t, (ok_iff {E = TrustGrantError} (codes close) x).0 p ∙ h);
}

module _ {A : Type 0} (write_one : A → Written) (initial : ℕ)
    (opens : (a : A) → Opens initial (write_one a))
    (each : (a b : A) → Splits (write_one a) (write_one b) (a ≡ b)) (close : String) (c : ℕ)
    (t : Bytes) (starts : codes close ≡ c ∷ t) (no_comma : ¬ (c ≡ b','))
    (no_initial : ¬ (c ≡ initial)) where
  rest-Opens :
      (a : A) (xs : List A) → Opens b',' (write_rest write_one (a ∷ xs) then write_bytes close)
  unfolding write_rest
  rest-Opens a xs = Opens-then (write_bytes close) (
      Opens-then (write_rest write_one xs)
        (Opens-then (write_one a) (bytes-Opens b',' "," [] refl)))

  write_rest-Splits :
      (xs ys : List A)
      → Splits
          (write_rest write_one xs then write_bytes close)
          (write_rest write_one ys then write_bytes close)
          (xs ≡ ys)
  unfolding write_rest
  write_rest-Splits [] [] = map-Splits (λ _. refl) (same-Splits (ok [] then write_bytes close))
  write_rest-Splits [] (b ∷ ys) = clash (empty-Opens c close t starts) (rest-Opens b ys) no_comma
  write_rest-Splits (a ∷ xs) [] =
      clash (rest-Opens a xs) (empty-Opens c close t starts) (λ h. no_comma (sym h))
  write_rest-Splits (a ∷ xs) (b ∷ ys) =
      rw
        (
          then_assoc (write_bytes "," then write_one a) (write_rest write_one xs)
              (write_bytes close),
          then_assoc (write_bytes "," then write_one b) (write_rest write_one ys)
              (write_bytes close),
        )
        (map-Splits (λ (p, q). cc)
          (then-Splits (after-Splits (write_bytes ",") (each a b)) (write_rest-Splits xs ys)))

  separated-Opens :
      (a : A) (xs : List A)
      → Opens initial (write_separated write_one (a ∷ xs) then write_bytes close)
  unfolding write_separated
  separated-Opens a xs =
      Opens-then (write_bytes close) (Opens-then (write_rest write_one xs) (opens a))

  write_separated-Splits :
      (xs ys : List A)
      → Splits
          (write_separated write_one xs then write_bytes close)
          (write_separated write_one ys then write_bytes close)
          (xs ≡ ys)
  unfolding write_separated
  write_separated-Splits [] [] = map-Splits (λ _. refl) (same-Splits (ok [] then write_bytes close))
  write_separated-Splits [] (b ∷ ys) =
      clash (empty-Opens c close t starts) (separated-Opens b ys) no_initial
  write_separated-Splits (a ∷ xs) [] =
      clash (separated-Opens a xs) (empty-Opens c close t starts) (λ h. no_initial (sym h))
  write_separated-Splits (a ∷ xs) (b ∷ ys) =
      rw
        (
          then_assoc (write_one a) (write_rest write_one xs) (write_bytes close),
          then_assoc (write_one b) (write_rest write_one ys) (write_bytes close),
        )
        (map-Splits (λ (p, q). cc) (then-Splits (each a b) (write_rest-Splits xs ys)))

  -- A list behind fixed text.
  pub enclosed-Splits :
      (k : Written) (xs ys : List A)
      → Splits
          (k then write_separated write_one xs then write_bytes close)
          (k then write_separated write_one ys then write_bytes close)
          (xs ≡ ys)
  enclosed-Splits k xs ys =
      rw
        (
          then_assoc k (write_separated write_one xs) (write_bytes close),
          then_assoc k (write_separated write_one ys) (write_bytes close),
        )
        (after-Splits k (write_separated-Splits xs ys))

module _ {A : Type 0} (write_one : A → Written) (initial : ℕ)
    (opens : (a : A) → Opens initial (write_one a))
    (each : (a b : A) → Splits (write_one a) (write_one b) (a ≡ b))
    (no_bracket : ¬ (b']' ≡ initial)) where
  pub write_array-Splits :
      (xs ys : List A) → Splits (write_array write_one xs) (write_array write_one ys) (xs ≡ ys)
  unfolding write_array
  write_array-Splits =
      enclosed-Splits write_one initial opens each "]" b']' [] refl (λ h. omega (arith, h))
        no_bracket (write_bytes "[")

pub write_array-Opens :
    {A : Type 0} (write_one : A → Written) (xs : List A) → Opens b'[' (write_array write_one xs)
unfolding write_array
write_array-Opens write_one xs =
    Opens-then (write_bytes "]")
      (Opens-then (write_separated write_one xs) (bytes-Opens b'[' "[" [] refl))
