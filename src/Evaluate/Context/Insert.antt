-- ===== src/Evaluate/Context/Insert.antt =====
-- request.rs, `SelectorContext::insert`: what it adds, what it leaves alone, and the bounds it keeps.
use trustgrant.Prelude.{
  String, ℕ, suc, ◌+◌, ◌≤◌, true, false, List, [], ◌∷◌, ◌++◌, none, some, ◌≡◌, refl, ap, ◌∙◌, ◌↔◌,
  inl, inr, arith, Bool-cases, Option-cases, ◌==◌, option_eq, nat_eq, list_eq, eq_list_iff,
  eq_option_iff, length, length-append, ok, >>=-eq-ok, any, any_iff, Some, All, All-append,
  Distinct,
}
use trustgrant.Prelude.Text.{Text}
use trustgrant.Errors.Limits.{ensure_collection_limit, max_request_values_per_kind}
use trustgrant.Domain.Names.{SelectorKind, same_kind, kind_index}
use trustgrant.Domain.Names.Kinds.{same_kind_index_iff, same_kind_refl, same_kind_left}
use trustgrant.Evaluate.Context.{SelectorValues, scan, update_entry, add_value}
use trustgrant.Evaluate.Context.Index.{position}

pub limit_ok :
    (field : String) (n most : ℕ) → ensure_collection_limit field n most ≡ ok tt → n ≤ most
unfolding ensure_collection_limit
limit_ok field n most h = ground arith

Distinct-snoc :
    {A : Type 0} (xs : List A) (a : A)
    → Distinct xs
    → (¬ Some (λ x. x ≡ a) xs)
    → Distinct (xs ++ a ∷ [])
Distinct-snoc [] a d n = (tt, tt)
Distinct-snoc (x ∷ xs) a (d, ds) n = (
  All-append (λ y. ¬ (x ≡ y)) xs (a ∷ []) d ((λ e. n (inl e)), tt),
  Distinct-snoc xs a ds (λ s. n (inr s)),
)

Some-snoc : {A : Type 0} (xs : List A) (a : A) → Some (λ x. x ≡ a) (xs ++ a ∷ [])
Some-snoc [] a = inl refl
Some-snoc (x ∷ xs) a = inr (Some-snoc xs a)

-- The values of one kind: few, and none twice.
abbrev pub FewValues : SelectorValues → Type 0
FewValues e = (length e.values ≤ max_request_values_per_kind) × Distinct e.values

abbrev pub Has : Text → List Text → Type 0
Has value values = Some (λ v. v ≡ value) values

Has-iff :
    (value : Text) (values : List Text)
    → (any (λ existing. existing == value) values ≡ true) ↔ Has value values
Has-iff value values = any_iff (λ v. v ≡ value) (λ v. v == value) (λ v. eq_list_iff v value) values

add_value_lem :
    (value : Text) (e e' : SelectorValues)
    → add_value value e ≡ ok e'
    → (e'.kind ≡ e.kind) × Has value e'.values × (FewValues e → FewValues e')
unfolding add_value
add_value_lem value e e' h = elim (Bool-cases (any (λ existing. existing == value) e.values)) [
  | inl old ↦
      let same : e ≡ e' = ground arith in rw (← same) (refl, (Has-iff value e.values).0 old, λ f. f)
  | inr new ↦
      let (_, limit, h') =
        >>=-eq-ok
          (ensure_collection_limit "request.selector_values" (length e.values + 1)
            max_request_values_per_kind)
          _ (rw new at h) in
      let same : record e { values = e.values ++ value ∷ [] } ≡ e' = ground arith in
      let room : length e.values + 1 ≤ max_request_values_per_kind =
        limit_ok "request.selector_values" (length e.values + 1) max_request_values_per_kind
          limit in
      rw (← same) (
        refl,
        Some-snoc e.values value,
        λ f. (
          omega (arith, length-append e.values (value ∷ [])),
          Distinct-snoc e.values value f.1 (λ s. cc ((Has-iff value e.values).1 s)),
        ),
      )
]

-- What an update of the entry of a kind does.
pub record Updates (kind : SelectorKind) (value : Text) (es es' : List SelectorValues)
    : Type 0 where
  pub places : (idx : ℕ) → position idx es' ≡ position idx es
  pub count : length es' ≡ length es
  pub found : List Text
  pub scanned : scan kind es' ≡ some found
  pub added : Has value found
  pub others : (k : SelectorKind) → same_kind kind k ≡ false → scan k es' ≡ scan k es
  pub few : All FewValues es → All FewValues es'

pub update-Updates :
    (kind : SelectorKind) (value : Text) (es es' : List SelectorValues)
    → update_entry kind value es ≡ ok (some es')
    → Updates kind value es es'
unfolding update_entry position scan
update-Updates kind value [] es' h = cc
update-Updates kind value (e ∷ es) es' h = elim (Bool-cases (same_kind e.kind kind)) [
  | inl same ↦
      let (e', added, h') = >>=-eq-ok (add_value value e) _ (rw (same, update_entry) at h) in
      let (kept, has, few) = add_value_lem value e e' added in
      let at : e' ∷ es ≡ es' = ground arith in
      rw (← at) (record {
        places = λ idx. rw kept refl;
        count = refl;
        found = e'.values;
        scanned = rw (kept, same) refl;
        added = has;
        others = λ k differs. rw (kept, same_kind_left e.kind kind k same, differs) refl;
        few = λ (f, fs). (few f, fs);
      })
  | inr differs ↦
      let (rest, later, h') =
        >>=-eq-ok (update_entry kind value es) _ (rw (differs, update_entry) at h) in
      elim (Option-cases rest) [
        | inl none_left ↦ cc (rw none_left at h')
        | inr (es'', e_rest) ↦
            let ih = update-Updates kind value es es'' (later ∙ ap ok e_rest) in
            let at : e ∷ es'' ≡ es' = ground arith in
            rw (← at) (record {
              places = λ idx. rw (ih.places idx) refl;
              count = ap suc ih.count;
              found = ih.found;
              scanned = rw differs ih.scanned;
              added = ih.added;
              others = λ k other. rw (ih.others k other) refl;
              few = λ (f, fs). (f, ih.few fs);
            })
      ]
]

-- No entry is of the kind.
pub missing_entry :
    (kind : SelectorKind) (value : Text) (es : List SelectorValues)
    → update_entry kind value es ≡ ok none
    → All (λ e. same_kind e.kind kind ≡ false) es
unfolding update_entry
missing_entry kind value [] h = tt
missing_entry kind value (e ∷ es) h = elim (Bool-cases (same_kind e.kind kind)) [
  | inl same ↦
      let (e', added, h') = >>=-eq-ok (add_value value e) _ (rw (same, update_entry) at h) in cc
  | inr differs ↦
      let (rest, later, h') =
        >>=-eq-ok (update_entry kind value es) _ (rw (differs, update_entry) at h) in
      elim (Option-cases rest) [
        | inl none_left ↦ (differs, missing_entry kind value es (later ∙ ap ok none_left))
        | inr (es'', e_rest) ↦ cc (rw e_rest at h')
      ]
]

abbrev pub new_entry : SelectorKind → Text → SelectorValues
new_entry kind value = record { kind = kind; values = value ∷ [] }

-- The new entry is found under its kind, and no other kind sees it.
pub scan-push_self :
    (kind : SelectorKind) (value : Text) (es : List SelectorValues)
    → All (λ e. same_kind e.kind kind ≡ false) es
    → scan kind (es ++ new_entry kind value ∷ []) ≡ some (value ∷ [])
unfolding scan
scan-push_self kind value [] h = rw (same_kind_refl kind) refl
scan-push_self kind value (e ∷ es) (h, hs) = rw h (scan-push_self kind value es hs)

pub scan-push_other :
    (kind k : SelectorKind) (value : Text) (es : List SelectorValues)
    → same_kind kind k ≡ false
    → scan k (es ++ new_entry kind value ∷ []) ≡ scan k es
unfolding scan
scan-push_other kind k value [] h = rw h refl
scan-push_other kind k value (e ∷ es) h = rw (scan-push_other kind k value es h) refl

pub position-push_other :
    (kind : SelectorKind) (value : Text) (idx : ℕ) (es : List SelectorValues)
    → (kind_index kind == some idx) ≡ false
    → position idx (es ++ new_entry kind value ∷ []) ≡ position idx es
unfolding position
position-push_other kind value idx [] h = rw h refl
position-push_other kind value idx (e ∷ es) h = rw (position-push_other kind value idx es h) refl

pub position-push_self :
    (kind : SelectorKind) (value : Text) (idx : ℕ) (es : List SelectorValues)
    → kind_index kind ≡ some idx
    → All (λ e. same_kind e.kind kind ≡ false) es
    → position idx (es ++ new_entry kind value ∷ []) ≡ some (length es)
unfolding position
position-push_self kind value idx [] e h =
    rw ((eq_option_iff (kind_index kind) (some idx)).1 e) refl
position-push_self kind value idx (x ∷ es) e (h, hs) =
    elim (Bool-cases (kind_index x.kind == some idx)) [
      | inl here ↦ cc (
          (same_kind_index_iff x.kind kind idx e).1
            ((eq_option_iff (kind_index x.kind) (some idx)).0 here))
      | inr later ↦ rw (later, position-push_self kind value idx es e hs) refl
    ]
