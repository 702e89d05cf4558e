-- ===== src/Tests/Divergences.antt =====
-- Runs in which the code does not do what the documents say.
use trustgrant.Prelude.{none, some, [], ◌∷◌, ◌≡◌, refl, ok}
use trustgrant.Prelude.Assoc
use trustgrant.Prelude.Text.{codes, map_chars, ascii_lower}
use trustgrant.Domain.Canonicalization.{rfc8785}
use trustgrant.Document.Raw.{RawTrustGrantDocument}
use trustgrant.Document.Model.{ValidatedResourceType}
use trustgrant.Verify.Grant.{VerifiedTrustGrant, normalize}
use trustgrant.Verify.Canonicalize.Document.{canonicalize_trustgrant}
use trustgrant.Verify.Pipeline.{VerificationArtifacts, verify_raw_document_with_sources}
use trustgrant.Evaluate.Request.{EvaluationRequest, new_mint_context}
use trustgrant.Evaluate.Decision.{operation_denied}
use trustgrant.Evaluate.Engine.Inner.{evaluate}
use trustgrant.Tests.Fixture.{grant, items, item, studio}
use trustgrant.Tests.Requests.{mint_items}
use trustgrant.Tests.Documents.{lower, parse_length}
use trustgrant.Tests.Transitions.{binding, trusting, today}
use trustgrant.Tests.Verification.{raw_grant, granted, sources, metadata}
use trustgrant.Tests.Writing.{plain, bytes_of}

abbrev grant_for : ValidatedResourceType → VerifiedTrustGrant
grant_for resource_type = record grant {
  document = record grant.document { resource_scope = (item, resource_type) ∷ [] };
}

abbrev counted : EvaluationRequest
counted = record mint_items.request { mint_context = some (new_mint_context 0 0) }

-- TRUSTGRANT_V0_SPEC.md §6.1 allows `create` where there is no operation scope and minting is enabled.
no_operations_test :
    (evaluate (grant_for (record items { operations = none })) counted).decision.deny_reason
    ≡ some operation_denied
unfolding evaluate grant normalize Assoc.get
no_operations_test = refl

abbrev unlimited : ValidatedResourceType
unlimited = record items {
  constraints = record {
    minting = record { max_total = none; max_per_user = none };
    audience_scope = [];
  };
}

-- §13, step 10 rejects a mint whose mint context is missing.
no_mint_context_test :
    (evaluate
      (grant_for unlimited)
      (record mint_items.request { mint_context = none })).decision.deny_reason
    ≡ none
unfolding evaluate grant normalize Assoc.get
no_mint_context_test = refl

-- OWNERSHIP_AUTHORITY_TRANSITIONS.md §9 has the verifier confirm that the signer is the active owner. Here
-- the studio signs after it handed the items over to the shop.
abbrev predecessor_grant : RawTrustGrantDocument
predecessor_grant = record raw_grant { issuer_authority = codes "https://studio" }

abbrev predecessor_artifacts : VerificationArtifacts
predecessor_artifacts = record {
  verified_grant = record {
    document = normalize (record granted { issuer_authority = studio });
    metadata = record metadata { signer_binding = binding studio };
  };
  canonical_bytes = bytes_of (canonicalize_trustgrant plain predecessor_grant rfc8785);
}

predecessor_test :
    verify_raw_document_with_sources lower parse_length plain trusting predecessor_grant sources
      today
    ≡ ok predecessor_artifacts
unfolding verify_raw_document_with_sources map_chars ascii_lower
predecessor_test = refl
