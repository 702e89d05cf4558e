-- ===== src/Canonical/Writer.antt =====
-- The leaves of canonicalize.rs. A function of the code takes the buffer by `&mut` and only appends to
-- it; here it gives the bytes that it appends, or the error that ends the writing. Writing bytes to
-- a `Vec` does not fail.
use trustgrant.Prelude.{
  ℕ, String, Bool, true, false, Option, none, some, List, [], ◌∷◌, ◌++◌, Result, ok, ◌>>=◌, ok_or,
}
use trustgrant.Prelude.Text.{Text, codes}
use trustgrant.Errors.Kinds.{TrustGrantError, canonicalization_failure}
use trustgrant.Domain.Ownership.{Instant}

abbrev pub Bytes : Type 0
Bytes = List ℕ

abbrev pub Written : Type 0
Written = Result TrustGrantError Bytes

-- What the code does not write itself: a JSON string (serde_json), a date (chrono) and a number
-- (itoa).
pub record Formats : Type 0 where
  pub json_string : Text → Option Bytes
  pub rfc3339 : Instant → Bytes
  pub decimal : ℕ → Bytes

infixl 6 ◌then◌
-- One writing after the other, with `?` between them.
unfoldable pub ◌then◌ : Written → Written → Written
first then second = do front ← first; back ← second; ok (front ++ back)

unfoldable pub write_bytes : String → Written
write_bytes bytes = ok (codes bytes)

unfoldable pub write_null : Written
unfolding write_bytes
write_null = write_bytes "null"

unfoldable pub write_bool : Bool → Written
unfolding write_bytes
write_bool true = write_bytes "true"
write_bool false = write_bytes "false"

module _ (formats : Formats) where
  unfoldable pub write_json_string : Text → Written
  write_json_string value = ok_or (formats.json_string value) canonicalization_failure

  unfoldable pub write_u64 : ℕ → Written
  write_u64 value = ok (formats.decimal value)

  -- The date between quotes.
  unfoldable pub write_datetime : Instant → Written
  write_datetime value = ok (b'"' ∷ formats.rfc3339 value ++ b'"' ∷ [])

-- The elements behind the first, each after a comma.
unfoldable pub write_rest : {A : Type 0} → (A → Written) → List A → Written
unfolding ◌then◌ write_bytes
write_rest write_one [] = ok []
write_rest write_one (x ∷ xs) = write_bytes "," then write_one x then write_rest write_one xs

-- The loop with an index, and its commas.
unfoldable pub write_separated : {A : Type 0} → (A → Written) → List A → Written
unfolding ◌then◌ write_rest
write_separated write_one [] = ok []
write_separated write_one (x ∷ xs) = write_one x then write_rest write_one xs

-- `null` for a value that is not there.
unfoldable pub write_optional : {A : Type 0} → (A → Written) → Option A → Written
unfolding write_null
write_optional write_one none = write_null
write_optional write_one (some a) = write_one a

-- A list between brackets.
unfoldable pub write_array : {A : Type 0} → (A → Written) → List A → Written
unfolding ◌then◌ write_bytes write_separated
write_array write_one xs = write_bytes "[" then write_separated write_one xs then write_bytes "]"
