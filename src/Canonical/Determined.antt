-- ===== src/Canonical/Determined.antt =====
-- What is written of a field determines its value.
use trustgrant.Prelude.{ℕ, String, Bool, Option, List, [], ◌≡◌, refl, arith}
use trustgrant.Prelude.Text.{Text}
use trustgrant.Domain.Ownership.{Instant}
use trustgrant.Canonical.Writer.{
  Written, Formats, ◌then◌, write_bytes, write_json_string, write_bool, write_u64, write_optional,
  write_array,
}
use trustgrant.Canonical.Fields.{
  write_field_name, write_json_string_field, write_bool_field, write_optional_bool_field,
  write_u64_field, write_optional_u64_field, write_datetime_field, write_optional_string_field,
  write_string_array_field,
}
use trustgrant.Canonical.Unique.{Splits, Apart, Splits-Apart, after-Apart}
use trustgrant.Canonical.Values.{
  IsFaithful, IsNotNull, Opens, Opens-then, bytes-Opens, write_bool-Splits, write_bool-IsNotNull,
  write_optional-Splits, write_optional-Apart, write_json_string-Splits, write_json_string-Opens,
  write_json_string-IsNotNull, write_u64-Apart, write_u64-IsNotNull, write_datetime-Splits,
}
use trustgrant.Canonical.Lists.{write_array-Splits, write_array-Opens}

-- The opening brace, and what is written from it on.
pub brace-Opens : Opens b'{' (write_bytes "{")
brace-Opens = bytes-Opens b'{' "{" [] refl

pub ruleset opening = (Opens-then, brace-Opens)

-- Lists are not `null`, and neither are objects.
pub array-IsNotNull :
    {A : Type 0} (write_one : A → Written) (xs : List A) → IsNotNull (write_array write_one xs)
array-IsNotNull write_one xs = record {
  first = b'[';
  differs = λ h. omega (arith, h);
  opened = write_array-Opens write_one xs;
}

pub object-IsNotNull : {m : Written} → Opens b'{' m → IsNotNull m
object-IsNotNull h = record { first = b'{'; differs = λ e. omega (arith, e); opened = h }

-- An optional list of objects.
pub objects-Splits :
    {A : Type 0} (write_one : A → Written)
    → ((a : A) → Opens b'{' (write_one a))
    → ((a b : A) → Splits (write_one a) (write_one b) (a ≡ b))
    → (xs ys : Option (List A))
    → Splits
        (write_optional (write_array write_one) xs)
        (write_optional (write_array write_one) ys)
        (xs ≡ ys)
objects-Splits write_one opens each =
    write_optional-Splits (write_array write_one) (array-IsNotNull write_one)
      (write_array-Splits write_one b'{' opens each (λ h. omega (arith, h)))

module _ (formats : Formats) (f : IsFaithful formats) (name : String) where
  -- A name says nothing.
  pub named-Apart :
      {m n : Written} {P : Type 0}
      → Apart m n P
      → Apart (write_field_name formats name then m) (write_field_name formats name then n) P
  named-Apart h = after-Apart (write_field_name formats name) h

  pub named-Splits-Apart :
      {m n : Written} {P : Type 0}
      → Splits m n P
      → Apart (write_field_name formats name then m) (write_field_name formats name then n) P
  named-Splits-Apart h = after-Apart (write_field_name formats name) (Splits-Apart h)

  pub write_json_string_field-Apart :
      (a b : Text)
      → Apart
          (write_json_string_field formats name a)
          (write_json_string_field formats name b)
          (a ≡ b)
  unfolding write_json_string_field
  write_json_string_field-Apart a b = named-Splits-Apart (write_json_string-Splits formats f a b)

  pub write_bool_field-Apart :
      (a b : Bool)
      → Apart (write_bool_field formats name a) (write_bool_field formats name b) (a ≡ b)
  unfolding write_bool_field
  write_bool_field-Apart a b = named-Splits-Apart (write_bool-Splits a b)

  pub write_optional_bool_field-Apart :
      (a b : Option Bool)
      → Apart
          (write_optional_bool_field formats name a)
          (write_optional_bool_field formats name b)
          (a ≡ b)
  unfolding write_optional_bool_field
  write_optional_bool_field-Apart a b =
      named-Splits-Apart
        (write_optional-Splits write_bool write_bool-IsNotNull write_bool-Splits a b)

  pub write_u64_field-Apart :
      (a b : ℕ) → Apart (write_u64_field formats name a) (write_u64_field formats name b) (a ≡ b)
  unfolding write_u64_field
  write_u64_field-Apart a b = named-Apart (write_u64-Apart formats f a b)

  pub write_optional_u64_field-Apart :
      (a b : Option ℕ)
      → Apart
          (write_optional_u64_field formats name a)
          (write_optional_u64_field formats name b)
          (a ≡ b)
  unfolding write_optional_u64_field
  write_optional_u64_field-Apart a b = named-Apart (
      write_optional-Apart (write_u64 formats) (write_u64-IsNotNull formats f)
        (write_u64-Apart formats f) a b)

  pub write_datetime_field-Apart :
      (a b : Instant)
      → Apart (write_datetime_field formats name a) (write_datetime_field formats name b) (a ≡ b)
  unfolding write_datetime_field
  write_datetime_field-Apart a b = named-Splits-Apart (write_datetime-Splits formats f a b)

  pub write_optional_string_field-Apart :
      (a b : Option Text)
      → Apart
          (write_optional_string_field formats name a)
          (write_optional_string_field formats name b)
          (a ≡ b)
  unfolding write_optional_string_field
  write_optional_string_field-Apart a b = named-Splits-Apart (
      write_optional-Splits (write_json_string formats) (write_json_string-IsNotNull formats f)
        (write_json_string-Splits formats f) a b)

  pub write_string_array_field-Apart :
      (a b : Option (List Text))
      → Apart
          (write_string_array_field formats name a)
          (write_string_array_field formats name b)
          (a ≡ b)
  unfolding write_string_array_field
  write_string_array_field-Apart a b = named-Splits-Apart (
      write_optional-Splits (write_array (write_json_string formats))
        (array-IsNotNull (write_json_string formats))
        (write_array-Splits (write_json_string formats) b'"' (write_json_string-Opens formats f)
          (write_json_string-Splits formats f) (λ h. omega (arith, h)))
        a b)
