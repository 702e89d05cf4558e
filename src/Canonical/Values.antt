-- ===== src/Canonical/Values.antt =====
-- What is written of a value determines the value.
use mathlib.Core.List.{append_assoc}
use trustgrant.Prelude.{
  ℕ, Bool, true, false, Option, none, some, String, [], ◌∷◌, ◌++◌, ◌≡◌, refl, sym, ap, ◌∙◌, arith,
  ok, ok_or, ok_iff, All, ◌<◌,
}
use trustgrant.Prelude.Text.{Text, codes}
use trustgrant.Errors.Kinds.{TrustGrantError, canonicalization_failure}
use trustgrant.Domain.Ownership.{Instant}
use trustgrant.Canonical.Writer.{
  Bytes, Written, Formats, ◌then◌, write_bytes, write_null, write_bool, write_json_string,
  write_u64, write_datetime, write_optional,
}
use trustgrant.Canonical.Unique.{
  IsDelimiter, Delimited, Splits, Apart, then-parts, map-Splits, map-Apart, same-Splits,
  Splits-Apart,
}

-- What the code relies on. A JSON string starts with a quote, and what follows it can be told from
-- it; a number is written in digits, a date without quotes, and both can be read back.
pub record IsFaithful (formats : Formats) : Type 0 where
  pub quoted :
      (s : Text) (x : Bytes) → formats.json_string s ≡ some x → (t : Bytes) × (x ≡ b'"' ∷ t)
  pub strings :
      (a b : Text) (x y r s : Bytes)
      → formats.json_string a ≡ some x
      → formats.json_string b ≡ some y
      → (x ++ r) ≡ (y ++ s)
      → (a ≡ b) × (r ≡ s)
  pub digits : (n : ℕ) → All (λ c. (b'/' < c) × (c < b':')) (formats.decimal n)
  pub some_digit : (n : ℕ) → ¬ (formats.decimal n ≡ [])
  pub numbers : (n m : ℕ) → formats.decimal n ≡ formats.decimal m → n ≡ m
  pub no_quote : (at : Instant) → All (λ c. ¬ (c ≡ b'"')) (formats.rfc3339 at)
  pub dates : (a b : Instant) → formats.rfc3339 a ≡ formats.rfc3339 b → a ≡ b

-- A text that a predicate covers ends where the predicate fails.
until :
    (P : ℕ → Type 0) (x y : Bytes) (c d : ℕ) (r s : Bytes)
    → All P x
    → All P y
    → ¬ P c
    → ¬ P d
    → (x ++ (c ∷ r)) ≡ (y ++ (d ∷ s))
    → (x ≡ y) × ((c ∷ r) ≡ (d ∷ s))
until P [] [] c d r s px py pc pd e = (refl, e)
until P [] (b ∷ y) c d r s px (pb, py) pc pd e = let h : c ≡ b = cc in absurd (pc (rw h pb))
until P (a ∷ x) [] c d r s (pa, px) py pc pd e = let h : a ≡ d = cc in absurd (pd (rw (sym h) pa))
until P (a ∷ x) (b ∷ y) c d r s (pa, px) (pb, py) pc pd e =
    let here : a ≡ b = cc in
    let later : (x ++ (c ∷ r)) ≡ (y ++ (d ∷ s)) = cc in
    let (same, rest) = until P x y c d r s px py pc pd later in (cc, rest)

-- The first byte of what is written.
pub record Opens (c : ℕ) (m : Written) : Type 0 where
  pub opens : (x : Bytes) → m ≡ ok x → (t : Bytes) × (x ≡ c ∷ t)

pub Opens-then : {c : ℕ} {m : Written} (n : Written) → Opens c m → Opens c (m then n)
Opens-then {c} {m} n h = record {
  opens = λ x p.
      let (a, b, pa, pb, px) = then-parts m n x p in
      let (t, pt) = h.opens a pa in (t ++ b, px ∙ ap (λ (l : Bytes). l ++ b) pt);
}

-- What does not start with the `n` of `null`.
pub record IsNotNull (m : Written) : Type 0 where
  pub first : ℕ
  pub differs : ¬ (first ≡ b'n')
  pub opened : Opens first m

-- Writings that start with different bytes do not agree.
pub clash :
    {c d : ℕ} {m n : Written} {P : Type 0} → Opens c m → Opens d n → ¬ (c ≡ d) → Splits m n P
clash {c} {d} f g differs = record {
  split = λ x y r s p q e.
      let (t, px) = f.opens x p in
      let (u, qy) = g.opens y q in
      let same : c ∷ (t ++ r) ≡ d ∷ (u ++ s) =
        sym (ap (λ (l : Bytes). l ++ r) px) ∙ e ∙ ap (λ (l : Bytes). l ++ s) qy in
      let here : c ≡ d = cc in absurd (differs here);
}

pub bytes-Opens :
    (c : ℕ) (text : String) (t : Bytes) → codes text ≡ c ∷ t → Opens c (write_bytes text)
unfolding write_bytes
bytes-Opens c text t h = record {
  opens = λ x p. (t, (ok_iff {E = TrustGrantError} (codes text) x).0 p ∙ h);
}

pub write_bool-Splits : (a b : Bool) → Splits (write_bool a) (write_bool b) (a ≡ b)
unfolding write_bool
write_bool-Splits true true = map-Splits (λ _. refl) (same-Splits (write_bytes "true"))
write_bool-Splits false false = map-Splits (λ _. refl) (same-Splits (write_bytes "false"))
write_bool-Splits true false =
    clash (bytes-Opens b't' "true" _ refl) (bytes-Opens b'f' "false" _ refl) (λ h. omega (arith, h))
write_bool-Splits false true =
    clash (bytes-Opens b'f' "false" _ refl) (bytes-Opens b't' "true" _ refl) (λ h. omega (arith, h))

pub write_bool-IsNotNull : (a : Bool) → IsNotNull (write_bool a)
unfolding write_bool
write_bool-IsNotNull true = record {
  first = b't';
  differs = λ h. omega (arith, h);
  opened = bytes-Opens b't' "true" _ refl;
}
write_bool-IsNotNull false = record {
  first = b'f';
  differs = λ h. omega (arith, h);
  opened = bytes-Opens b'f' "false" _ refl;
}

null-Opens : Opens b'n' write_null
unfolding write_null
null-Opens = bytes-Opens b'n' "null" _ refl

module _ {A : Type 0} (write_one : A → Written) (not_null : (a : A) → IsNotNull (write_one a)) where
  pub write_optional-Splits :
      ((a b : A) → Splits (write_one a) (write_one b) (a ≡ b))
      → (a b : Option A) → Splits (write_optional write_one a) (write_optional write_one b) (a ≡ b)
  unfolding write_optional
  write_optional-Splits each none none = map-Splits (λ _. refl) (same-Splits write_null)
  write_optional-Splits each (some a) (some b) = map-Splits (λ e. ap some e) (each a b)
  write_optional-Splits each none (some b) =
      clash null-Opens (not_null b).opened (λ h. (not_null b).differs (sym h))
  write_optional-Splits each (some a) none =
      clash (not_null a).opened null-Opens (not_null a).differs

  pub write_optional-Apart :
      ((a b : A) → Apart (write_one a) (write_one b) (a ≡ b))
      → (a b : Option A) → Apart (write_optional write_one a) (write_optional write_one b) (a ≡ b)
  unfolding write_optional
  write_optional-Apart each none none =
      Splits-Apart (map-Splits (λ _. refl) (same-Splits write_null))
  write_optional-Apart each (some a) (some b) = map-Apart (λ e. ap some e) (each a b)
  write_optional-Apart each none (some b) =
      Splits-Apart (clash null-Opens (not_null b).opened (λ h. (not_null b).differs (sym h)))
  write_optional-Apart each (some a) none =
      Splits-Apart (clash (not_null a).opened null-Opens (not_null a).differs)

module _ (formats : Formats) (f : IsFaithful formats) where
  -- What `ok_or` gives comes from the option.
  from_some : (o : Option Bytes) (x : Bytes) → ok_or o canonicalization_failure ≡ ok x → o ≡ some x
  from_some none x h = cc
  from_some (some y) x h = ap some (sym ((ok_iff {E = TrustGrantError} y x).0 h))

  pub write_json_string-Splits :
      (a b : Text) → Splits (write_json_string formats a) (write_json_string formats b) (a ≡ b)
  unfolding write_json_string
  write_json_string-Splits a b = record {
    split = λ x y r s p q e.
        f.strings a b x y r s (from_some (formats.json_string a) x p)
          (from_some (formats.json_string b) y q) e;
  }

  pub write_json_string-Opens : (a : Text) → Opens b'"' (write_json_string formats a)
  unfolding write_json_string
  write_json_string-Opens a = record {
    opens = λ x p. f.quoted a x (from_some (formats.json_string a) x p);
  }

  pub write_json_string-IsNotNull : (a : Text) → IsNotNull (write_json_string formats a)
  write_json_string-IsNotNull a = record {
    first = b'"';
    differs = λ h. omega (arith, h);
    opened = write_json_string-Opens a;
  }

  delimiter_lem : (c : ℕ) → IsDelimiter c → ¬ ((b'/' < c) × (c < b':'))
  delimiter_lem c d h = ground arith

  pub write_u64-Apart : (a b : ℕ) → Apart (write_u64 formats a) (write_u64 formats b) (a ≡ b)
  unfolding write_u64
  write_u64-Apart a b = record { apart = read }
    where
      read :
          (x y r s : Bytes)
          → Delimited r
          → Delimited s
          → ◌≡◌ {A = Written} (ok (formats.decimal a)) (ok x)
          → ◌≡◌ {A = Written} (ok (formats.decimal b)) (ok y)
          → (x ++ r) ≡ (y ++ s)
          → (a ≡ b) × (r ≡ s)
      read x y [] s dr ds p q e = elim dr [ ]
      read x y (c ∷ r) [] dr ds p q e = elim ds [ ]
      read x y (c ∷ r) (d ∷ s) dr ds p q e =
          let px = (ok_iff {E = TrustGrantError} (formats.decimal a) x).0 p in
          let qy = (ok_iff {E = TrustGrantError} (formats.decimal b) y).0 q in
          let (same, rest) =
            until (λ c. (b'/' < c) × (c < b':')) (formats.decimal a) (formats.decimal b) c d r s
              (f.digits a) (f.digits b) (delimiter_lem c dr) (delimiter_lem d ds)
              (sym (ap (λ (l : Bytes). l ++ (c ∷ r)) px)
                ∙ e
                ∙ ap (λ (l : Bytes). l ++ (d ∷ s)) qy) in
          (f.numbers a b same, rest)

  pub write_u64-IsNotNull : (a : ℕ) → IsNotNull (write_u64 formats a)
  unfolding write_u64
  write_u64-IsNotNull a = from (formats.decimal a) (f.digits a) (f.some_digit a)
    where
      from : (l : Bytes) → All (λ c. (b'/' < c) × (c < b':')) l → ¬ (l ≡ []) → IsNotNull (ok l)
      from [] h n = absurd (n refl)
      from (c ∷ l) (h, _) n = record {
        first = c;
        differs = λ e. omega (arith, e, h);
        opened = record { opens = λ x p. (l, (ok_iff {E = TrustGrantError} (c ∷ l) x).0 p) };
      }

  pub write_datetime-Splits :
      (a b : Instant) → Splits (write_datetime formats a) (write_datetime formats b) (a ≡ b)
  unfolding write_datetime
  write_datetime-Splits a b = record {
    split = λ x y r s p q e.
        let da = formats.rfc3339 a in
        let db = formats.rfc3339 b in
        let px = (ok_iff {E = TrustGrantError} (b'"' ∷ da ++ b'"' ∷ []) x).0 p in
        let qy = (ok_iff {E = TrustGrantError} (b'"' ∷ db ++ b'"' ∷ []) y).0 q in
        let e' : b'"' ∷ ((da ++ (b'"' ∷ [])) ++ r) ≡ b'"' ∷ ((db ++ (b'"' ∷ [])) ++ s) =
          sym (ap (λ (l : Bytes). l ++ r) px) ∙ e ∙ ap (λ (l : Bytes). l ++ s) qy in
        let e'' : (da ++ (b'"' ∷ [])) ++ r ≡ (db ++ (b'"' ∷ [])) ++ s = cc in
        let (same, rest) =
          until (λ c. ¬ (c ≡ b'"')) da db b'"' b'"' r s (f.no_quote a) (f.no_quote b) (λ k. k refl)
            (λ k. k refl)
            (sym (append_assoc da (b'"' ∷ []) r) ∙ e'' ∙ append_assoc db (b'"' ∷ []) s) in
        (f.dates a b same, cc);
  }
