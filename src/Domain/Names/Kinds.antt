-- ===== src/Domain/Names/Kinds.antt =====
-- names.rs: `same_kind` is equality of what a kind stands for.
use trustgrant.Prelude.{
  true, some, ℕ, ◌≡◌, refl, ◌↔◌, arith, eq_list_iff, nat_eq, [], ap, inl, inr, sym, ◌∙◌, Bool-cases,
  list_eq,
}
use trustgrant.Prelude.Text.{Text}
use trustgrant.Domain.Names.{
  SelectorKind, SelectorKindClassification, authority, namespace, actor, other, same_kind,
  kind_index,
}

-- A built-in kind, or the text of another one.
abbrev key_of : SelectorKindClassification → Text → SelectorKindClassification × Text
key_of other v = (other, v)
key_of authority v = (authority, [])
key_of namespace v = (namespace, [])
key_of actor v = (actor, [])

abbrev pub kind_key : SelectorKind → SelectorKindClassification × Text
kind_key k = key_of k.classification k.value

by_classes :
    (c d : SelectorKindClassification) (v w : Text)
    → (same_kind
          (record { classification = c; value = v })
          (record { classification = d; value = w })
        ≡ true)
      ↔ (key_of c v ≡ key_of d w)
unfolding same_kind
by_classes other other v w =
    let (to, from) = eq_list_iff v w in
    (
      λ h. ap (λ (x : Text). (other, x)) (to h),
      λ e. from (ap (λ (p : SelectorKindClassification × Text). p.1) e),
    )
by_classes other authority v w = (λ h. cc, λ e. ground arith)
by_classes other namespace v w = (λ h. cc, λ e. ground arith)
by_classes other actor v w = (λ h. cc, λ e. ground arith)
by_classes authority authority v w = (λ _. refl, λ _. refl)
by_classes authority namespace v w = (λ h. cc, λ e. ground arith)
by_classes authority actor v w = (λ h. cc, λ e. ground arith)
by_classes authority other v w = (λ h. cc, λ e. ground arith)
by_classes namespace authority v w = (λ h. cc, λ e. ground arith)
by_classes namespace namespace v w = (λ _. refl, λ _. refl)
by_classes namespace actor v w = (λ h. cc, λ e. ground arith)
by_classes namespace other v w = (λ h. cc, λ e. ground arith)
by_classes actor authority v w = (λ h. cc, λ e. ground arith)
by_classes actor namespace v w = (λ h. cc, λ e. ground arith)
by_classes actor actor v w = (λ _. refl, λ _. refl)
by_classes actor other v w = (λ h. cc, λ e. ground arith)

pub same_kind_iff : (a b : SelectorKind) → (same_kind a b ≡ true) ↔ (kind_key a ≡ kind_key b)
same_kind_iff a b = by_classes a.classification b.classification a.value b.value

pub same_kind_refl : (a : SelectorKind) → same_kind a a ≡ true
same_kind_refl a = (same_kind_iff a a).1 refl

-- Kinds that are the same are told apart from others alike.
pub same_kind_left : (a b c : SelectorKind) → same_kind a b ≡ true → same_kind a c ≡ same_kind b c
same_kind_left a b c h = elim (Bool-cases (same_kind b c)) [
  | inl e ↦ (same_kind_iff a c).1 ((same_kind_iff a b).0 h ∙ (same_kind_iff b c).0 e) ∙ sym e
  | inr e ↦ elim (Bool-cases (same_kind a c)) [
    | inl e' ↦ cc ((same_kind_iff b c).1 (sym ((same_kind_iff a b).0 h) ∙ (same_kind_iff a c).0 e'))
    | inr e' ↦ e' ∙ sym e
  ]
]

index_by_classes :
    (c d : SelectorKindClassification) (v w : Text) (i : ℕ)
    → kind_index (record { classification = d; value = w }) ≡ some i
    → (same_kind
          (record { classification = c; value = v })
          (record { classification = d; value = w })
        ≡ true)
      ↔ (kind_index (record { classification = c; value = v }) ≡ some i)
unfolding same_kind kind_index
index_by_classes c other v w i h = cc
index_by_classes authority authority v w i h = (λ _. h, λ _. refl)
index_by_classes namespace authority v w i h = (λ e. cc, λ e. ground arith)
index_by_classes actor authority v w i h = (λ e. cc, λ e. ground arith)
index_by_classes other authority v w i h = (λ e. cc, λ e. cc)
index_by_classes authority namespace v w i h = (λ e. cc, λ e. ground arith)
index_by_classes namespace namespace v w i h = (λ _. h, λ _. refl)
index_by_classes actor namespace v w i h = (λ e. cc, λ e. ground arith)
index_by_classes other namespace v w i h = (λ e. cc, λ e. cc)
index_by_classes authority actor v w i h = (λ e. cc, λ e. ground arith)
index_by_classes namespace actor v w i h = (λ e. cc, λ e. ground arith)
index_by_classes actor actor v w i h = (λ _. h, λ _. refl)
index_by_classes other actor v w i h = (λ e. cc, λ e. cc)

-- A built-in kind is the same as the kinds with its index.
pub same_kind_index_iff :
    (a b : SelectorKind) (i : ℕ)
    → kind_index b ≡ some i
    → (same_kind a b ≡ true) ↔ (kind_index a ≡ some i)
same_kind_index_iff a b i h = index_by_classes a.classification b.classification a.value b.value i h
