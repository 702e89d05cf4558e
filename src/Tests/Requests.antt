-- ===== src/Tests/Requests.antt =====
-- Requests of a player for items, and what the grant says to them.
use trustgrant.Prelude.{true, none, some, [], ◌∷◌}
use trustgrant.Prelude.Text.{codes}
use trustgrant.Domain.Names.{actor}
use trustgrant.Evaluate.Context.{SelectorContext, new_selector_context}
use trustgrant.Evaluate.Request.{
  EvaluationRequest, capability, mint, recognize, existing, mint_from, ResourceRef, ResourceBinding,
  RequestedOperation,
}
use trustgrant.Evaluate.Mutation.{MutationRequest}
use trustgrant.Tests.Fixture.{studio, shop, item, edition}

abbrev pub first_items : SelectorContext
first_items = record {
  entries = record { kind = edition; values = codes "first" ∷ [] } ∷ [];
  kind_index = none ∷ none ∷ none ∷ none ∷ [];
}

abbrev pub player : SelectorContext
player = record {
  entries =
      record {
        kind = record { classification = actor; value = codes "actor" };
        values = codes "ann" ∷ [];
      }
      ∷ [];
  kind_index = none ∷ none ∷ some 0 ∷ none ∷ [];
}

abbrev pub request_for : RequestedOperation → ResourceBinding → EvaluationRequest
request_for operation binding = record {
  operation = operation;
  resource_binding = binding;
  intent_id = some (record { as_str = codes "intent" });
  target_authority = shop;
  target_context = new_selector_context;
  audience_authority = shop;
  audience_context = new_selector_context;
  audience_principal_context = player;
  resource = record { resource_type = item; selectors = first_items };
  mint_context = none;
  evaluated_at = 50;
  selectors_verified = true;
}

abbrev pub sword : ResourceRef
sword = record {
  origin_authority = studio;
  resource_type = some item;
  resource_id = codes "sword";
  expected_version = some 4;
}

abbrev pub mint_items : MutationRequest
mint_items = record {
  request =
      request_for (capability mint)
        (mint_from (record { origin_authority = studio; template_id = some (codes "t") }));
  intent_id = record { as_str = codes "intent" };
  actor = none;
  envelope_expires_at = none;
}

abbrev pub recognize_sword : MutationRequest
recognize_sword = record {
  request = request_for (capability recognize) (existing sword);
  intent_id = record { as_str = codes "intent" };
  actor = none;
  envelope_expires_at = none;
}
