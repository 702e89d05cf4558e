-- ===== src/Domain/Canonicalization/Keys.antt =====
-- canonicalization.rs: maps whose keys are `Utf16Key`s are in order, and have what was inserted.
use trustgrant.Prelude.{
  List, [], ◌∷◌, ◌≡◌, ◌⊎◌, refl, sym, ap, ◌∙◌, Bool-cases, inl, inr, All, Some, Distinct,
}
use mathlib.Core.List.{map}
use trustgrant.Prelude.Text.{Text}
use trustgrant.Domain.Canonicalization.{encode_utf16, is_less, insert_key, collect_keys}
use trustgrant.Domain.Canonicalization.Order.{
  IsScalars, Precedes, is_less-encode_utf16_iff, Precedes-trans, Precedes-total,
}

module _ {V : Type 0} where
  abbrev AreBeyond : Text → List (Text × V) → Type 0
  AreBeyond key entries = All (λ e. Precedes key e.0) entries

  -- Each key is before all that follow.
  abbrev pub IsInOrder : List (Text × V) → Type 0
  IsInOrder [] = Unit
  IsInOrder ((key, value) ∷ rest) = AreBeyond key rest × IsInOrder rest

  abbrev pub AreKeys : List (Text × V) → Type 0
  AreKeys entries = All (λ e. IsScalars e.0) entries

  abbrev pub Has : Text × V → List (Text × V) → Type 0
  Has entry entries = Some (λ e. e ≡ entry) entries

  AreBeyond-trans :
      (k l : Text) (entries : List (Text × V))
      → Precedes k l
      → AreBeyond l entries
      → AreBeyond k entries
  AreBeyond-trans k l [] h beyond = tt
  AreBeyond-trans k l ((other, old) ∷ rest) h (first, beyond) =
      (Precedes-trans k l other h first, AreBeyond-trans k l rest h beyond)

  -- What an insertion does, for each outcome of the comparison with the first key.
  data Placed (key : Text) (value : V) (other : Text) (old : V) (rest : List (Text × V))
      : Type 0 where
    before :
        Precedes key other
        → insert_key key value ((other, old) ∷ rest) ≡ (key, value) ∷ (other, old) ∷ rest
        → Placed key value other old rest
    after :
        Precedes other key
        → insert_key key value ((other, old) ∷ rest) ≡ (other, old) ∷ insert_key key value rest
        → Placed key value other old rest
    at :
        other ≡ key
        → insert_key key value ((other, old) ∷ rest) ≡ (other, value) ∷ rest
        → Placed key value other old rest

  placed :
      (key : Text) (value : V) (other : Text) (old : V) (rest : List (Text × V))
      → IsScalars key
      → IsScalars other
      → Placed key value other old rest
  unfolding insert_key
  placed key value other old rest sk so =
      let (to, from) = is_less-encode_utf16_iff key other sk so in
      let (to', from') = is_less-encode_utf16_iff other key so sk in
      elim (Bool-cases (is_less (encode_utf16 key) (encode_utf16 other))) [
        | inl e ↦ before (to e) (rw e refl)
        | inr e ↦ elim (Bool-cases (is_less (encode_utf16 other) (encode_utf16 key))) [
          | inl e' ↦ after (to' e') (rw (e, e') refl)
          | inr e' ↦
              at
                (elim (Precedes-total key other sk so) [
                  | inl h ↦ cc (from h)
                  | inr rest' ↦ elim rest' [ inl same ↦ sym same | inr h ↦ cc (from' h) ]
                ])
                (rw (e, e') refl)
        ]
      ]

  insert_key-AreBeyond :
      (first key : Text) (value : V) (m : List (Text × V))
      → IsScalars key
      → AreKeys m
      → Precedes first key
      → AreBeyond first m
      → AreBeyond first (insert_key key value m)
  unfolding insert_key
  insert_key-AreBeyond first key value [] sk sm h beyond = (h, tt)
  insert_key-AreBeyond first key value ((other, old) ∷ rest) sk (so, sm) h (next, beyond) =
      let later = insert_key-AreBeyond first key value rest sk sm h beyond in
      elim (placed key value other old rest sk so) [
        | before k e ↦ rw e (h, (next, beyond))
        | after k e ↦ rw e (next, later)
        | at k e ↦ rw e (next, beyond)
      ]

  insert_key-AreKeys :
      (key : Text) (value : V) (m : List (Text × V))
      → IsScalars key
      → AreKeys m
      → AreKeys (insert_key key value m)
  unfolding insert_key
  insert_key-AreKeys key value [] sk sm = (sk, tt)
  insert_key-AreKeys key value ((other, old) ∷ rest) sk (so, sm) =
      let later = insert_key-AreKeys key value rest sk sm in
      elim (placed key value other old rest sk so) [
        | before k e ↦ rw e (sk, (so, sm))
        | after k e ↦ rw e (so, later)
        | at k e ↦ rw e (so, sm)
      ]

  insert_key-IsInOrder :
      (key : Text) (value : V) (m : List (Text × V))
      → IsScalars key
      → AreKeys m
      → IsInOrder m
      → IsInOrder (insert_key key value m)
  unfolding insert_key
  insert_key-IsInOrder key value [] sk sm ordered = (tt, tt)
  insert_key-IsInOrder key value ((other, old) ∷ rest) sk (so, sm) (beyond, ordered) =
      let later = insert_key-IsInOrder key value rest sk sm ordered in
      elim (placed key value other old rest sk so) [
        | before k e ↦ rw e ((k, AreBeyond-trans key other rest k beyond), (beyond, ordered))
        | after k e ↦ rw e (insert_key-AreBeyond other key value rest sk sm k beyond, later)
        | at k e ↦ rw e (beyond, ordered)
      ]

  -- The inserted entry is there, the entries with other keys stay, and no entry is made up.
  insert_key-Has :
      (key : Text) (value : V) (m : List (Text × V))
      → IsScalars key
      → AreKeys m
      → Has (key, value) (insert_key key value m)
  unfolding insert_key
  insert_key-Has key value [] sk sm = inl refl
  insert_key-Has key value ((other, old) ∷ rest) sk (so, sm) =
      let later = insert_key-Has key value rest sk sm in
      elim (placed key value other old rest sk so) [
        | before k e ↦ rw e (inl refl)
        | after k e ↦ rw e (inr later)
        | at k e ↦ rw e (inl (ap (λ o. (o, value)) k))
      ]

  insert_key-keeps :
      (key : Text) (value : V) (entry : Text × V) (m : List (Text × V))
      → IsScalars key
      → AreKeys m
      → ¬ (entry.0 ≡ key)
      → Has entry m
      → Has entry (insert_key key value m)
  unfolding insert_key
  insert_key-keeps key value entry [] sk sm other_key there = absurd there
  insert_key-keeps key value entry ((other, old) ∷ rest) sk (so, sm) other_key there =
      let later = insert_key-keeps key value entry rest sk sm other_key in
      elim (placed key value other old rest sk so) [
        | before k e ↦ rw e (inr there)
        | after k e ↦ rw e (elim there [ inl x ↦ inl x | inr x ↦ inr (later x) ])
        | at k e ↦
            rw e (elim there [
              | inl x ↦ absurd (other_key (ap (λ y. y.0) (sym x) ∙ k))
              | inr x ↦ inr x
            ])
      ]

  insert_key-only :
      (key : Text) (value : V) (entry : Text × V) (m : List (Text × V))
      → IsScalars key
      → AreKeys m
      → Has entry (insert_key key value m)
      → ((key, value) ≡ entry) ⊎ Has entry m
  unfolding insert_key
  insert_key-only key value entry [] sk sm there = there
  insert_key-only key value entry ((other, old) ∷ rest) sk (so, sm) there =
      let later = insert_key-only key value entry rest sk sm in
      elim (placed key value other old rest sk so) [
        | before k e ↦ rw e at there
        | after k e ↦ elim (rw e at there) [
          | inl x ↦ inr (inl x)
          | inr x ↦ elim (later x) [ inl y ↦ inl y | inr y ↦ inr (inr y) ]
        ]
        | at k e ↦ elim (rw e at there) [
          | inl x ↦ inl (ap (λ o. (o, value)) (sym k) ∙ x)
          | inr x ↦ inr (inr x)
        ]
      ]

  pub collect_keys-IsInOrder :
      (m entries : List (Text × V))
      → AreKeys m
      → AreKeys entries
      → IsInOrder m
      → IsInOrder (collect_keys m entries)
  unfolding collect_keys
  collect_keys-IsInOrder m [] sm se ordered = ordered
  collect_keys-IsInOrder m ((key, value) ∷ entries) sm (sk, se) ordered =
      collect_keys-IsInOrder (insert_key key value m) entries (insert_key-AreKeys key value m sk sm)
        se (insert_key-IsInOrder key value m sk sm ordered)

  collect_keys-keeps :
      (entry : Text × V) (m entries : List (Text × V))
      → AreKeys m
      → AreKeys entries
      → All (λ k. ¬ (entry.0 ≡ k)) (map (λ e. e.0) entries)
      → Has entry m
      → Has entry (collect_keys m entries)
  unfolding collect_keys
  collect_keys-keeps entry m [] sm se others there = there
  collect_keys-keeps entry m ((key, value) ∷ entries) sm (sk, se) (other_key, others) there =
      collect_keys-keeps entry (insert_key key value m) entries
        (insert_key-AreKeys key value m sk sm) se others
        (insert_key-keeps key value entry m sk sm other_key there)

  pub collect_keys-Has :
      (entry : Text × V) (m entries : List (Text × V))
      → AreKeys m
      → AreKeys entries
      → Distinct (map (λ e. e.0) entries)
      → Has entry entries
      → Has entry (collect_keys m entries)
  unfolding collect_keys
  collect_keys-Has entry m [] sm se distinct there = absurd there
  collect_keys-Has entry m ((key, value) ∷ entries) sm (sk, se) (others, distinct) there =
      let sm' = insert_key-AreKeys key value m sk sm in
      elim there [
        | inl same ↦ rw (sym same) (
            collect_keys-keeps (key, value) (insert_key key value m) entries sm' se others
              (insert_key-Has key value m sk sm))
        | inr later ↦ collect_keys-Has entry (insert_key key value m) entries sm' se distinct later
      ]

  pub collect_keys-only :
      (entry : Text × V) (m entries : List (Text × V))
      → AreKeys m
      → AreKeys entries
      → Has entry (collect_keys m entries)
      → Has entry m ⊎ Has entry entries
  unfolding collect_keys
  collect_keys-only entry m [] sm se there = inl there
  collect_keys-only entry m ((key, value) ∷ entries) sm (sk, se) there =
      elim (collect_keys-only entry (insert_key key value m) entries
        (insert_key-AreKeys key value m sk sm) se there) [
          | inr later ↦ inr (inr later)
          | inl h ↦ elim (insert_key-only key value entry m sk sm h) [
            | inl same ↦ inr (inl same)
            | inr earlier ↦ inl earlier
          ]
        ]
