-- ===== src/Tests/Writing.antt =====
-- A way to write strings, numbers and dates that is faithful, and the canonical bytes of documents.
use trustgrant.Prelude.{
  ℕ, zero, suc, ◌<◌, none, some, [], ◌∷◌, ◌++◌, ◌≡◌, refl, sym, ap, ◌∙◌, arith, All, ok, err,
}
use trustgrant.Prelude.Text.{Text, codes}
use trustgrant.Domain.Canonicalization.{rfc8785}
use trustgrant.Document.Raw.{RawTrustGrantDocument}
use trustgrant.Canonical.Writer.{Bytes, Written, Formats}
use trustgrant.Canonical.Values.{IsFaithful}
use trustgrant.Verify.Canonicalize.Document.{canonicalize_trustgrant}
use trustgrant.Verify.Canonicalize.Determined.Document.{canonicalize_trustgrant_iff}
use trustgrant.Tests.Documents.{raw_document}

-- Each code point after a one, and a zero at the end.
abbrev marked : Text → Bytes
marked [] = 0 ∷ []
marked (c ∷ s) = 1 ∷ c ∷ marked s

abbrev rest : Bytes → Bytes
rest [] = []
rest (c ∷ s) = s

abbrev pub ones : ℕ → Bytes
ones zero = []
ones (suc n) = b'1' ∷ ones n

abbrev pub plain : Formats
plain = record {
  json_string = λ s. some (b'"' ∷ marked s);
  rfc3339 = ones;
  decimal = λ n. b'1' ∷ ones n;
}

marked-split : (a b : Text) (r s : Bytes) → (marked a ++ r) ≡ (marked b ++ s) → (a ≡ b) × (r ≡ s)
marked-split [] [] r s h = (refl, cc)
marked-split [] (d ∷ b) r s h = cc
marked-split (c ∷ a) [] r s h = cc
marked-split (c ∷ a) (d ∷ b) r s h =
    let same : c ≡ d = cc in let (e, e') = marked-split a b r s cc in (cc, e')

ones-injective : (n m : ℕ) → ones n ≡ ones m → n ≡ m
ones-injective zero zero h = refl
ones-injective zero (suc m) h = cc
ones-injective (suc n) zero h = cc
ones-injective (suc n) (suc m) h = ap suc (ones-injective n m cc)

ones-digits : (n : ℕ) → All (λ c. (b'/' < c) × (c < b':')) (ones n)
ones-digits zero = tt
ones-digits (suc n) = ((omega arith, omega arith), ones-digits n)

ones-no_quote : (n : ℕ) → All (λ c. ¬ (c ≡ b'"')) (ones n)
ones-no_quote zero = tt
ones-no_quote (suc n) = ((λ e. omega (arith, e)), ones-no_quote n)

pub plain-IsFaithful : IsFaithful plain
plain-IsFaithful = record {
  quoted = λ s x h. (marked s, cc);
  strings = λ a b x y r s h h' e.
      let same : (b'"' ∷ marked a) ≡ x = cc in
      let same' : (b'"' ∷ marked b) ≡ y = cc in
      marked-split a b r s (ap rest (ap (λ z. z ++ r) same ∙ e ∙ ap (λ z. z ++ s) (sym same')));
  digits = λ n. ((omega arith, omega arith), ones-digits n);
  some_digit = λ n. λ h. cc;
  numbers = λ n m h. ones-injective n m cc;
  no_quote = ones-no_quote;
  dates = ones-injective;
}

abbrev pub bytes_of : Written → Bytes
bytes_of (ok bytes) = bytes
bytes_of (err _) = []

-- The fixture's document with another signature and another profile.
abbrev resigned : RawTrustGrantDocument
resigned = record (raw_document none) { signature = codes "another" }

abbrev grant_bytes : Bytes
grant_bytes = bytes_of (canonicalize_trustgrant plain (raw_document none) rfc8785)

written_test : canonicalize_trustgrant plain (raw_document none) rfc8785 ≡ ok grant_bytes
unfolding canonicalize_trustgrant
written_test = refl

canonicalize_trustgrant_iff_example :
    canonicalize_trustgrant plain resigned rfc8785 ≡ ok grant_bytes
canonicalize_trustgrant_iff_example =
    (canonicalize_trustgrant_iff plain plain-IsFaithful (raw_document none) resigned grant_bytes
        written_test).1
      refl
