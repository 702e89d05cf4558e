-- ===== src/Tests/Contexts.antt =====
-- Selector contexts, selectors, expressions and limits at concrete inputs.
use trustgrant.Prelude.{true, false, none, some, List, [], ◌∷◌, ◌≡◌, refl, ok, inl, inr, arith}
use trustgrant.Prelude.Text.{Text, codes, byte_len, is_control}
use trustgrant.Domain.Names.{SelectorKind, namespace, new_selector_kind, same_kind}
use trustgrant.Domain.Expression.{SelectorExpression, starts_with, matches, parse, display}
use trustgrant.Domain.Expression.RoundTrip.{parse-display}
use trustgrant.Domain.Expression.Matching.{Says, matches_iff}
use trustgrant.Evaluate.Context.{
  SelectorContext, new_selector_context, insert, values_for_kind, scan, normalize_context_value,
}
use trustgrant.Evaluate.Context.Index.{position, values_for_kind-eq-scan}
use trustgrant.Evaluate.Context.Insert.{Has}
use trustgrant.Evaluate.Context.Laws.{IsWellFormed, insert-IsWellFormed, values_for_kind-insert}
use trustgrant.Evaluate.Engine.{
  selector_matches_context, evaluate_scope_with_reasons, evaluate_minting_constraints,
}
use trustgrant.Evaluate.Engine.Matching.{Covers, selector_matches_context_iff}
use trustgrant.Evaluate.Engine.Scopes.{Permits, evaluate_scope_iff}
use trustgrant.Evaluate.Engine.Limits.{MintPermits, evaluate_minting_constraints_iff}
use trustgrant.Evaluate.Decision.{resource_denied, resource_not_allowed}
use trustgrant.Tests.Fixture.{first_edition, items}
use trustgrant.Evaluate.Request.{EvaluationRequest, with_runtime_mint_context}
use trustgrant.Tests.Requests.{first_items, mint_items}

abbrev arena : SelectorContext
arena = record {
  entries =
      record {
        kind = record { classification = namespace; value = codes "Namespace" };
        values = codes "arena" ∷ [];
      }
      ∷ [];
  kind_index = none ∷ some 0 ∷ none ∷ none ∷ [];
}

new_selector_context-IsWellFormed : IsWellFormed new_selector_context
unfolding position
new_selector_context-IsWellFormed = record {
  indexed = record { slots = refl };
  kinds = ground arith;
  each = tt;
}

insert_test : insert (codes "Namespace") (codes " arena ") new_selector_context ≡ ok arena
unfolding insert
insert_test = refl

insert-IsWellFormed_example : IsWellFormed arena
insert-IsWellFormed_example =
    insert-IsWellFormed (codes "Namespace") (codes " arena ") new_selector_context arena
      new_selector_context-IsWellFormed insert_test

values_for_kind-insert_example :
    (k : SelectorKind) × (v : Text) × (vs : List Text) × (new_selector_kind (codes "Namespace")
      ≡ ok k)
    × (normalize_context_value "selector_context.value" (codes " arena ") ≡ ok v)
    × (values_for_kind arena k ≡ some vs)
    × Has v vs
    × ((j : SelectorKind)
        → same_kind k j ≡ false
        → values_for_kind arena j ≡ values_for_kind new_selector_context j)
values_for_kind-insert_example =
    values_for_kind-insert (codes "Namespace") (codes " arena ") new_selector_context arena
      new_selector_context-IsWellFormed insert_test

values_for_kind-eq-scan_example :
    values_for_kind arena (record { classification = namespace; value = codes "namespace" })
    ≡ scan (record { classification = namespace; value = codes "namespace" }) arena.entries
values_for_kind-eq-scan_example =
    values_for_kind-eq-scan arena (record { classification = namespace; value = codes "namespace" })
      (insert-IsWellFormed (codes "Namespace") (codes " arena ") new_selector_context arena
        new_selector_context-IsWellFormed insert_test).indexed

abbrev vip : SelectorExpression
vip = record { predicate = starts_with; argument = codes "vip_" }

matches_test : matches vip (codes "vip_ann") ≡ true
unfolding matches
matches_test = refl

matches_iff_example : Says starts_with (codes "vip_") (codes "vip_ann")
matches_iff_example = (matches_iff vip (codes "vip_ann")).0 matches_test

selector_test : selector_matches_context first_edition first_items ≡ true
unfolding selector_matches_context
selector_test = refl

selector_matches_context_iff_example : Covers first_items first_edition
selector_matches_context_iff_example =
    (selector_matches_context_iff first_edition first_items).0 selector_test

scope_test :
    evaluate_scope_with_reasons false
      (first_edition ∷ [])
      []
      first_items
      resource_denied
      resource_not_allowed
    ≡ ok tt
unfolding evaluate_scope_with_reasons
scope_test = refl

evaluate_scope_iff_example : Permits false (first_edition ∷ []) [] first_items
evaluate_scope_iff_example =
    (evaluate_scope_iff false (first_edition ∷ []) [] first_items resource_denied
        resource_not_allowed).0
      scope_test

-- A third item, the second of the player.
abbrev third_item : EvaluationRequest
third_item =
    with_runtime_mint_context mint_items.request
      (record { current_total_mints = 2; current_mints_for_audience = 1; requested_quantity = 1 })

limits_test : evaluate_minting_constraints items.constraints.minting third_item ≡ ok tt
unfolding evaluate_minting_constraints
limits_test = refl

evaluate_minting_constraints_iff_example : MintPermits items.constraints.minting third_item
evaluate_minting_constraints_iff_example =
    (evaluate_minting_constraints_iff items.constraints.minting third_item).0 limits_test

abbrev two_lines : SelectorExpression
two_lines = record { predicate = starts_with; argument = codes "vip\n\"a\"" }

two_lines_test : parse (codes " startsWith ( \"vip\\n\\\"a\\\"\" ) ") ≡ ok two_lines
unfolding parse
two_lines_test = refl

parse-display_example : parse (display two_lines) ≡ ok two_lines
unfolding display byte_len is_control
parse-display_example =
    parse-display two_lines
      (inl refl, (inl refl, (inl refl, (inr (inl refl), (inl refl, (inl refl, (inl refl, tt)))))))
      (ground arith)
