-- ===== src/Canonical/Unique.antt =====
-- When two outputs of the writers can only agree if what was written agrees, whatever follows them.
use mathlib.Core.List.{append_assoc, append_cancel_left}
use trustgrant.Prelude.{
  ℕ, String, [], ◌∷◌, ◌++◌, ◌≡◌, ◌⊎◌, inl, inr, refl, sym, ap, ◌∙◌, ok, >>=-eq-ok, ok_iff,
}
use trustgrant.Prelude.Text.{codes}
use trustgrant.Errors.Kinds.{TrustGrantError}
use trustgrant.Canonical.Writer.{Bytes, Written, ◌then◌, write_bytes}

-- A byte that can follow a value: a comma or a closing brace.
abbrev pub IsDelimiter : ℕ → Type 0
IsDelimiter c = (c ≡ b',') ⊎ (c ≡ b'}')

abbrev pub Delimited : Bytes → Type 0
Delimited [] = ⊥
Delimited (c ∷ s) = IsDelimiter c

-- `P` follows when the outputs agree, and so does that what follows them agrees.
pub record Splits (m n : Written) (P : Type 0) : Type 0 where
  pub split : (x y r s : Bytes) → m ≡ ok x → n ≡ ok y → (x ++ r) ≡ (y ++ s) → P × (r ≡ s)

-- The same when a delimiter follows.
pub record Apart (m n : Written) (P : Type 0) : Type 0 where
  pub apart :
      (x y r s : Bytes)
      → Delimited r
      → Delimited s
      → m ≡ ok x
      → n ≡ ok y
      → (x ++ r) ≡ (y ++ s)
      → P × (r ≡ s)

pub Splits-Apart : {m n : Written} {P : Type 0} → Splits m n P → Apart m n P
Splits-Apart h = record { apart = λ x y r s _ _ p q e. h.split x y r s p q e }

-- The parts of what two writers write.
pub then-parts :
    (m n : Written) (x : Bytes)
    → (m then n) ≡ ok x
    → (a : Bytes) × (b : Bytes) × (m ≡ ok a) × (n ≡ ok b) × (x ≡ a ++ b)
unfolding ◌then◌
then-parts m n x h =
    let (a, p, h₁) = >>=-eq-ok m _ h in
    let (b, q, h₂) = >>=-eq-ok n _ h₁ in
    (a, b, p, q, (ok_iff {E = TrustGrantError} (a ++ b) x).0 h₂)

regroup :
    (x a b y c d r s : Bytes)
    → x ≡ a ++ b
    → y ≡ c ++ d
    → (x ++ r) ≡ (y ++ s)
    → (a ++ (b ++ r)) ≡ (c ++ (d ++ s))
regroup x a b y c d r s p q e =
    sym (append_assoc a b r)
    ∙ sym (ap (λ (l : Bytes). l ++ r) p)
    ∙ e
    ∙ ap (λ (l : Bytes). l ++ s) q
    ∙ append_assoc c d s

pub same-Splits : (m : Written) → Splits m m Unit
same-Splits m = record {
  split = λ x y r s p q e.
      let same = (ok_iff {E = TrustGrantError} y x).0 (sym q ∙ p) in
      (tt, append_cancel_left x r s (e ∙ ap (λ (l : Bytes). l ++ s) (sym same)));
}

module _ {m n m' n' : Written} {P Q : Type 0} where
  pub then-Splits : Splits m n P → Splits m' n' Q → Splits (m then m') (n then n') (P × Q)
  then-Splits f g = record {
    split = λ x y r s p q e.
        let (a, b, pa, pb, px) = then-parts m m' x p in
        let (c, d, qc, qd, qy) = then-parts n n' y q in
        let (here, e') = f.split a c (b ++ r) (d ++ s) pa qc (regroup x a b y c d r s px qy e) in
        let (later, e'') = g.split b d r s pb qd e' in ((here, later), e'');
  }

  pub then-Apart : Splits m n P → Apart m' n' Q → Apart (m then m') (n then n') (P × Q)
  then-Apart f g = record {
    apart = λ x y r s dr ds p q e.
        let (a, b, pa, pb, px) = then-parts m m' x p in
        let (c, d, qc, qd, qy) = then-parts n n' y q in
        let (here, e') = f.split a c (b ++ r) (d ++ s) pa qc (regroup x a b y c d r s px qy e) in
        let (later, e'') = g.apart b d r s dr ds pb qd e' in ((here, later), e'');
  }

module _ {m n : Written} {P : Type 0} where
  -- What a name and other fixed text add says nothing.
  pub after-Apart : (k : Written) → Apart m n P → Apart (k then m) (k then n) P
  after-Apart k f = record {
    apart = λ x y r s dr ds p q e.
        let (a, b, pa, pb, px) = then-parts k m x p in
        let (c, d, qc, qd, qy) = then-parts k n y q in
        let (_, e') =
          (same-Splits k).split a c (b ++ r) (d ++ s) pa qc (regroup x a b y c d r s px qy e) in
        f.apart b d r s dr ds pb qd e';
  }

  pub after-Splits : (k : Written) → Splits m n P → Splits (k then m) (k then n) P
  after-Splits k f = record {
    split = λ x y r s p q e.
        let (a, b, pa, pb, px) = then-parts k m x p in
        let (c, d, qc, qd, qy) = then-parts k n y q in
        let (_, e') =
          (same-Splits k).split a c (b ++ r) (d ++ s) pa qc (regroup x a b y c d r s px qy e) in
        f.split b d r s pb qd e';
  }

  -- A text that starts with a delimiter closes what is before it.
  pub closed :
      (text : String)
      → Delimited (codes text)
      → Apart m n P
      → Splits (m then write_bytes text) (n then write_bytes text) P
  unfolding write_bytes
  closed text delimits f = record {
    split = λ x y r s p q e.
        let (a, b, pa, pb, px) = then-parts m (ok (codes text)) x p in
        let (c, d, qc, qd, qy) = then-parts n (ok (codes text)) y q in
        let pb' = (ok_iff {E = TrustGrantError} (codes text) b).0 pb in
        let qd' = (ok_iff {E = TrustGrantError} (codes text) d).0 qd in
        let e' =
          regroup x a (codes text) y c (codes text) r s (px ∙ ap (λ (l : Bytes). a ++ l) pb')
            (qy ∙ ap (λ (l : Bytes). c ++ l) qd') e in
        let (here, e'') =
          f.apart a c (codes text ++ r) (codes text ++ s) (Delimited-append (codes text) r delimits)
            (Delimited-append (codes text) s delimits) pa qc e' in
        (here, append_cancel_left (codes text) r s e'');
  }
    where
      Delimited-append : (t u : Bytes) → Delimited t → Delimited (t ++ u)
      Delimited-append [] u h = elim h [ ]
      Delimited-append (c ∷ t) u h = h

-- To restate what follows.
pub map-Splits : {m n : Written} {P Q : Type 0} → (P → Q) → Splits m n P → Splits m n Q
map-Splits f g = record {
  split = λ x y r s p q e. let (here, e') = g.split x y r s p q e in (f here, e');
}

pub map-Apart : {m n : Written} {P Q : Type 0} → (P → Q) → Apart m n P → Apart m n Q
map-Apart f g = record {
  apart = λ x y r s dr ds p q e. let (here, e') = g.apart x y r s dr ds p q e in (f here, e');
}

-- One output from two inputs.
pub Splits-same :
    {m n : Written} {P : Type 0} → Splits m n P → (x : Bytes) → m ≡ ok x → n ≡ ok x → P
Splits-same f x p q = (f.split x x [] [] p q refl).0

infixl 5 ◌comma◌
-- A field, a comma and the next field.
pub ◌comma◌ :
    {m n m' n' : Written} {P Q : Type 0}
    → Apart m n P
    → Apart m' n' Q
    → Apart (m then write_bytes "," then m') (n then write_bytes "," then n') (P × Q)
first comma next = then-Apart (closed "," (inl refl) first) next

-- Fields and the closing brace.
pub object :
    {m n : Written} {P : Type 0}
    → Apart m n P
    → Splits (m then write_bytes "}") (n then write_bytes "}") P
object fields = closed "}" (inr refl) fields
