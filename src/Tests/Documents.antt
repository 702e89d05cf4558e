-- ===== src/Tests/Documents.antt =====
-- The raw document of the fixture. Identifiers are read by a function that gives their length.
use trustgrant.Prelude.{ℕ, true, false, Option, none, some, [], ◌∷◌, ◌≡◌, refl, ok, err, length}
use trustgrant.Prelude.Text.{Text, codes, map_chars, ascii_lower}
use trustgrant.Errors.Kinds.{invalid_supersedes_for_first_revision}
use trustgrant.Document.Raw.{
  RawTrustGrantDocument, RawScope, RawResourceType, RawSelector, coexist, RawOperationScope,
}
use trustgrant.Document.Validate.{try_from}
use trustgrant.Document.Selectors.{validate_scope, validate_operation_scope}
use trustgrant.Document.Shape.{
  IsScope, validate_scope-IsScope, IsOperationScope, validate_operation_scope-IsOperationScope,
}
use trustgrant.Document.Validity.{IsDocument}
use trustgrant.Document.Validated.{try_from-IsDocument}
use trustgrant.Document.Model.{ValidatedScope, ValidatedOperationScope}
use trustgrant.Tests.Fixture.{studio, document, first_edition}

abbrev pub raw_first : RawSelector
raw_first = record {
  kind = codes "edition";
  all = false;
  values = some (codes " first" ∷ codes "first" ∷ []);
  expressions = none;
}

abbrev pub raw_everything : RawScope
raw_everything = record { all = true; allow = none; deny = none }

abbrev pub raw_some : RawScope
raw_some = record { all = false; allow = some (raw_first ∷ []); deny = some [] }

abbrev pub raw_operations : RawOperationScope
raw_operations = record { allow = some (codes "create" ∷ codes "recognize" ∷ []); deny = none }

abbrev pub raw_items : RawResourceType
raw_items = record {
  all = false;
  allow = some (raw_first ∷ []);
  deny = none;
  capabilities = record { recognize = none; mint = some true };
  constraints = record {
    minting = record { max_total = some 3; max_per_user = some 2 };
    audience_scope = none;
  };
  operations = some raw_operations;
}

abbrev pub raw_document : Option Text → RawTrustGrantDocument
raw_document supersedes = record {
  trustgrant_id = codes "tg_1234567";
  version = 0;
  grant_series_id = codes "tgs_123";
  revision = 1;
  supersedes = supersedes;
  supersession_policy = coexist;
  issuer_authority = codes "HTTPS://studio";
  origin_authority = codes "https://studio ";
  active_owning_authority = codes "https://Studio";
  key_id = codes "key";
  target_scope = raw_everything;
  capabilities = record { recognize = true; mint = false };
  default_audience_scope = none;
  resource_scope = record { types = (codes "item", raw_items) ∷ [] };
  global_constraints = some (record { time = some (record { not_before = 10; not_after = 100 }) });
  revocation = none;
  issued_at = 5;
  signature = codes "signature";
  issuer_principal = none;
  interoperability_profile = none;
}

abbrev pub lower : Text → Text
lower s = map_chars ascii_lower s

abbrev pub parse_length : Text → Option ℕ
parse_length s = some (length s)

document_test : try_from lower parse_length (raw_document none) ≡ ok (document studio)
unfolding try_from map_chars ascii_lower
document_test = refl

supersedes_test :
    try_from lower parse_length (raw_document (some (codes "tg_1")))
    ≡ err invalid_supersedes_for_first_revision
unfolding try_from map_chars ascii_lower
supersedes_test = refl

try_from-IsDocument_example : IsDocument (document studio)
try_from-IsDocument_example =
    try_from-IsDocument lower parse_length (raw_document none) (document studio) document_test

abbrev first_only : ValidatedScope
first_only = record { all = false; allow = first_edition ∷ []; deny = [] }

scope_of_test : validate_scope "target_scope" raw_some ≡ ok first_only
unfolding validate_scope
scope_of_test = refl

validate_scope-IsScope_example : IsScope first_only
validate_scope-IsScope_example =
    validate_scope-IsScope "target_scope" raw_some first_only scope_of_test

abbrev operations : ValidatedOperationScope
operations = record {
  allow = record { as_str = codes "create" } ∷ record { as_str = codes "recognize" } ∷ [];
  deny = [];
}

operations_test : validate_operation_scope raw_operations ≡ ok operations
unfolding validate_operation_scope
operations_test = refl

validate_operation_scope-IsOperationScope_example : IsOperationScope operations
validate_operation_scope-IsOperationScope_example =
    validate_operation_scope-IsOperationScope raw_operations operations operations_test
