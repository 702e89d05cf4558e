-- ===== src/Evaluate/Context/Index.antt =====
-- request.rs, `values_for_kind`: the index of the built-in kinds finds what the scan finds, and
-- every insertion keeps it so.
use trustgrant.Prelude.{
  ℕ, suc, List, [], ◌∷◌, Option, none, some, ◌≡◌, refl, ap, sym, ◌∙◌, inl, inr, arith, Bool-cases,
  Option-cases, ◌==◌, option_eq, nat_eq, eq_option_iff, eq_option, if◌then◌else◌, get_elem?,
}
use trustgrant.Domain.Names.{
  SelectorKind, same_kind, kind_index, SelectorKindClassification, authority, namespace, actor,
  other,
}
use trustgrant.Domain.Names.Kinds.{same_kind_index_iff}
use trustgrant.Evaluate.Context.{SelectorValues, SelectorContext, scan, values_for_kind}

abbrev pub shift : Option ℕ → Option ℕ
shift none = none
shift (some i) = some (suc i)

-- Where the first entry of the built-in kind with an index stands.
unfoldable pub position : ℕ → List SelectorValues → Option ℕ
unfolding kind_index eq_option
position idx [] = none
position idx (e ∷ es) = if kind_index e.kind == some idx then some 0 else shift (position idx es)

-- The index is the positions of the entries.

pub record IsIndexed (ctx : SelectorContext) : Type 0 where
  pub slots :
      ctx.kind_index
      ≡ position 0 ctx.entries ∷ position 1 ctx.entries ∷ position 2 ctx.entries ∷ none ∷ []

-- The scan finds the entry at the position.
scan-position :
    (kind : SelectorKind) (idx : ℕ)
    → kind_index kind ≡ some idx
    → (es : List SelectorValues) (i : ℕ) → position idx es ≡ some i
    → (e : SelectorValues) × (get_elem? es i ≡ some e) × (scan kind es ≡ some e.values)
unfolding position scan
scan-position kind idx h [] i p = cc
scan-position kind idx h (e ∷ es) i p =
    let (to, from) = same_kind_index_iff e.kind kind idx h in
    let (eq, eq') = eq_option_iff (kind_index e.kind) (some idx) in
    elim (Bool-cases (kind_index e.kind == some idx)) [
      | inl here ↦ let at : i ≡ 0 = ground arith in (e, rw at refl, rw (from (eq here)) refl)
      | inr later ↦ elim (Option-cases (position idx es)) [
        | inl missing ↦ cc (rw (later, missing) at p)
        | inr (j, found) ↦
            let (e', g, s) = scan-position kind idx h es j found in
            let at : i ≡ suc j = ground arith in
            (
              e',
              rw at g,
              elim (Bool-cases (same_kind e.kind kind)) [
                | inl same ↦ cc (eq' (to same))
                | inr differs ↦ rw differs s
              ],
            )
      ]
    ]

slot :
    (kind : SelectorKind) (idx : ℕ) (p : ℕ → Option ℕ)
    → kind_index kind ≡ some idx
    → get_elem? (p 0 ∷ p 1 ∷ p 2 ∷ none ∷ []) idx ≡ some (p idx)
unfolding kind_index
slot kind idx p = by_class kind.classification
  where
    by_class :
        (c : SelectorKindClassification)
        → kind_index (record { classification = c; value = kind.value }) ≡ some idx
        → get_elem? (p 0 ∷ p 1 ∷ p 2 ∷ none ∷ []) idx ≡ some (p idx)
    by_class authority h = let e : idx ≡ 0 = ground arith in rw e refl
    by_class namespace h = let e : idx ≡ 1 = ground arith in rw e refl
    by_class actor h = let e : idx ≡ 2 = ground arith in rw e refl
    by_class other h = cc

-- In a context whose index is right, the look-up by index gives what the scan of all entries gives.
pub values_for_kind-eq-scan :
    (ctx : SelectorContext) (kind : SelectorKind)
    → IsIndexed ctx
    → values_for_kind ctx kind ≡ scan kind ctx.entries
unfolding values_for_kind
values_for_kind-eq-scan ctx kind inv = elim (Option-cases (kind_index kind)) [
  | inl e ↦ rw (e, values_for_kind)
  | inr (idx, e) ↦
      let at =
        ap (λ (x : List (Option ℕ)). get_elem? x idx) inv.slots
        ∙ slot kind idx (λ i. position i ctx.entries) e in
      elim (Option-cases (position idx ctx.entries)) [
        | inl missing ↦ rw (e, at, missing, values_for_kind)
        | inr (i, found) ↦
            let (entry, g, s) = scan-position kind idx e ctx.entries i found in
            rw (e, at, found, g, values_for_kind) (sym s)
      ]
]
