-- ===== src/Evaluate/Context/Laws.antt =====
-- request.rs: the laws of a selector context.
use trustgrant.Prelude.{
  ℕ, ◌+◌, ◌≤◌, false, List, [], ◌∷◌, ◌++◌, Option, none, some, ◌≡◌, refl, ap, sym, ◌∙◌, arith,
  Option-cases, inl, inr, ◌==◌, option_eq, nat_eq, length, length-append, set, ok, >>=-eq-ok, All,
  All-append, eq_option,
}
use trustgrant.Prelude.Text.{Text}
use trustgrant.Errors.Limits.{ensure_collection_limit, max_request_selector_kinds}
use trustgrant.Domain.Names.{
  SelectorKind, same_kind, kind_index, new_selector_kind, SelectorKindClassification, authority,
  namespace, actor, other,
}
use trustgrant.Evaluate.Context.{
  SelectorValues, SelectorContext, scan, values_for_kind, update_entry, push_entry, insert_value,
  insert, normalize_context_value,
}
use trustgrant.Evaluate.Context.Index.{position, IsIndexed, values_for_kind-eq-scan}
use trustgrant.Evaluate.Context.Insert.{
  Has, FewValues, Updates, update-Updates, missing_entry, new_entry, scan-push_self,
  scan-push_other, position-push_self, position-push_other, limit_ok,
}

-- The index is right, and there are few kinds, each with few values and none twice.
pub record IsWellFormed (ctx : SelectorContext) : Type 0 where
  pub indexed : IsIndexed ctx
  pub kinds : length ctx.entries ≤ max_request_selector_kinds
  pub each : All FewValues ctx.entries

abbrev Missing : SelectorKind → List SelectorValues → Type 0
Missing kind es = All (λ e. same_kind e.kind kind ≡ false) es

push-IsIndexed :
    (kind : SelectorKind) (value : Text) (ctx : SelectorContext)
    → Missing kind ctx.entries
    → IsIndexed ctx
    → IsIndexed (push_entry kind value ctx)
unfolding push_entry eq_option
push-IsIndexed kind value ctx missing inv = record {
  slots =
      by_class kind.classification (λ idx. position-push_other kind value idx ctx.entries)
        (λ idx e. position-push_self kind value idx ctx.entries e missing);
}
  where
    pushed : List SelectorValues
    pushed = ctx.entries ++ new_entry kind value ∷ []

    by_class :
        (c : SelectorKindClassification)
        → ((idx : ℕ)
            → (kind_index (record { classification = c; value = kind.value }) == some idx) ≡ false
            → position idx pushed ≡ position idx ctx.entries)
        → ((idx : ℕ)
            → kind_index (record { classification = c; value = kind.value }) ≡ some idx
            → position idx pushed ≡ some (length ctx.entries))
        → (elim (kind_index (record { classification = c; value = kind.value }))
            as (λ _. List (Option ℕ)) [
              | none ↦ ctx.kind_index
              | some idx ↦ set ctx.kind_index idx (some (length ctx.entries))
            ])
          ≡ position 0 pushed ∷ position 1 pushed ∷ position 2 pushed ∷ none ∷ []
    by_class authority others self = rw (inv.slots, self 0 refl, others 1 refl, others 2 refl) refl
    by_class namespace others self = rw (inv.slots, others 0 refl, self 1 refl, others 2 refl) refl
    by_class actor others self = rw (inv.slots, others 0 refl, others 1 refl, self 2 refl) refl
    by_class other others self = rw (inv.slots, others 0 refl, others 1 refl, others 2 refl) refl

-- What `insert` does past the validation of its arguments.
record Inserts (kind : SelectorKind) (value : Text) (ctx ctx' : SelectorContext) : Type 0 where
  kept : IsWellFormed ctx → IsWellFormed ctx'
  found : List Text
  scanned : scan kind ctx'.entries ≡ some found
  added : Has value found
  others : (k : SelectorKind) → same_kind kind k ≡ false → scan k ctx'.entries ≡ scan k ctx.entries

update-Inserts :
    (kind : SelectorKind) (value : Text) (ctx : SelectorContext) (es : List SelectorValues)
    → Updates kind value ctx.entries es
    → Inserts kind value ctx (record ctx { entries = es })
update-Inserts kind value ctx es u = record {
  kept = λ w. record {
    indexed = record {
      slots = w.indexed.slots ∙ λ i.
          sym (u.places 0) i ∷ sym (u.places 1) i ∷ sym (u.places 2) i ∷ none ∷ [];
    };
    kinds = let few = w.kinds in let same = u.count in omega arith;
    each = u.few w.each;
  };
  found = u.found;
  scanned = u.scanned;
  added = u.added;
  others = u.others;
}

push-Inserts :
    (kind : SelectorKind) (value : Text) (ctx : SelectorContext)
    → length ctx.entries + 1 ≤ max_request_selector_kinds
    → Missing kind ctx.entries
    → Inserts kind value ctx (push_entry kind value ctx)
unfolding push_entry
push-Inserts kind value ctx room missing = record {
  kept = λ w. record {
    indexed = push-IsIndexed kind value ctx missing w.indexed;
    kinds = omega (arith, length-append ctx.entries (new_entry kind value ∷ []));
    each =
        All-append FewValues ctx.entries (new_entry kind value ∷ []) w.each
          ((omega arith, (tt, tt)), tt);
  };
  found = value ∷ [];
  scanned = scan-push_self kind value ctx.entries missing;
  added = inl refl;
  others = λ k. scan-push_other kind k value ctx.entries;
}

insert_value-Inserts :
    (kind : SelectorKind) (value : Text) (ctx ctx' : SelectorContext)
    → insert_value kind value ctx ≡ ok ctx'
    → Inserts kind value ctx ctx'
unfolding insert_value
insert_value-Inserts kind value ctx ctx' h =
    let (updated, u, h') = >>=-eq-ok (update_entry kind value ctx.entries) _ h in
    elim (Option-cases updated) [
      | inl e ↦
          let (_, limit, done) =
            >>=-eq-ok
              (ensure_collection_limit "request.selector_kinds" (length ctx.entries + 1)
                max_request_selector_kinds)
              _ (rw (e, insert_value) at h') in
          let same : push_entry kind value ctx ≡ ctx' = ground arith in
          rw (← same) (
            push-Inserts kind value ctx
              (limit_ok "request.selector_kinds" (length ctx.entries + 1) max_request_selector_kinds
                limit)
              (missing_entry kind value ctx.entries (u ∙ ap ok e)))
      | inr (es, e) ↦
          let same : record ctx { entries = es } ≡ ctx' = ground (arith, rw e at h') in
          rw (← same) (
            update-Inserts kind value ctx es
              (update-Updates kind value ctx.entries es (u ∙ ap ok e)))
    ]

-- The three parts of a successful `insert`.
insert-parts :
    (kind value : Text) (ctx ctx' : SelectorContext)
    → insert kind value ctx ≡ ok ctx'
    → (k : SelectorKind) × (v : Text) × (new_selector_kind kind ≡ ok k)
      × (normalize_context_value "selector_context.value" value ≡ ok v)
      × Inserts k v ctx ctx'
unfolding insert
insert-parts kind value ctx ctx' h =
    let (k, hk, h₁) = >>=-eq-ok (new_selector_kind kind) _ h in
    let (v, hv, h₂) = >>=-eq-ok (normalize_context_value "selector_context.value" value) _ h₁ in
    (k, v, hk, hv, insert_value-Inserts k v ctx ctx' h₂)

-- An insertion keeps the index right and the numbers of kinds and of values within their limits.
pub insert-IsWellFormed :
    (kind value : Text) (ctx ctx' : SelectorContext)
    → IsWellFormed ctx
    → insert kind value ctx ≡ ok ctx'
    → IsWellFormed ctx'
insert-IsWellFormed kind value ctx ctx' w h =
    let (k, v, hk, hv, i) = insert-parts kind value ctx ctx' h in i.kept w

-- After an insertion into a well-formed context the value is found under its kind, in their
-- normalized forms, and what is found under every other kind is as before.
pub values_for_kind-insert :
    (kind value : Text) (ctx ctx' : SelectorContext)
    → IsWellFormed ctx
    → insert kind value ctx ≡ ok ctx'
    → (k : SelectorKind) × (v : Text) × (vs : List Text) × (new_selector_kind kind ≡ ok k)
      × (normalize_context_value "selector_context.value" value ≡ ok v)
      × (values_for_kind ctx' k ≡ some vs)
      × Has v vs
      × ((j : SelectorKind)
          → same_kind k j ≡ false
          → values_for_kind ctx' j ≡ values_for_kind ctx j)
values_for_kind-insert kind value ctx ctx' w h =
    let (k, v, hk, hv, i) = insert-parts kind value ctx ctx' h in
    let w' = i.kept w in
    (
      k,
      v,
      i.found,
      hk,
      hv,
      values_for_kind-eq-scan ctx' k w'.indexed ∙ i.scanned,
      i.added,
      λ j differs.
          values_for_kind-eq-scan ctx' j w'.indexed
          ∙ i.others j differs
          ∙ sym (values_for_kind-eq-scan ctx j w.indexed),
    )
