-- ===== src/Tests/Drafts.antt =====
-- A draft of the studio, signed.
use trustgrant.Prelude.{true, false, none, some, [], ◌∷◌, ◌≡◌, refl, Result, ok, err}
use trustgrant.Prelude.Text.{Text, codes}
use trustgrant.Errors.Kinds.{TrustGrantError, empty_string_field}
use trustgrant.Domain.Ids.{Uuid}
use trustgrant.Domain.Lineage.{coexist}
use trustgrant.Document.Raw.{RawTrustGrantDocument}
use trustgrant.Issue.Draft.{TrustGrantDraft, into_signed_document}
use trustgrant.Issue.Laws.{IsSignedDraft, into_signed_document_iff}
use trustgrant.Tests.Fixture.{studio}
use trustgrant.Tests.Documents.{raw_document, raw_everything, raw_items}
use trustgrant.Tests.Writing.{plain}

abbrev some_text : Uuid → Text
some_text id = codes "uuid"

abbrev draft : TrustGrantDraft
draft = record {
  trustgrant_id = 7;
  grant_series_id = 3;
  revision = record { get = 1 };
  supersedes = none;
  supersession_policy = coexist;
  issuer_authority = studio;
  origin_authority = studio;
  active_owning_authority = studio;
  key_id = record { as_str = codes "key" };
  target_scope = raw_everything;
  capabilities = record { recognize = true; mint = false };
  default_audience_scope = [];
  resource_scope = record { types = (codes "item", raw_items) ∷ [] };
  global_time_window = some (record { not_before = 10; not_after = 100 });
  revocation = none;
  issued_at = 5;
  issuer_principal = none;
  interoperability_profile = none;
}

abbrev signed_by : Result TrustGrantError RawTrustGrantDocument → RawTrustGrantDocument
signed_by (ok document) = document
signed_by (err _) = raw_document none

abbrev signed : RawTrustGrantDocument
signed = signed_by (into_signed_document some_text draft (codes "signature"))

signed_test : into_signed_document some_text draft (codes "signature") ≡ ok signed
unfolding into_signed_document
signed_test = refl

unsigned_test :
    into_signed_document some_text draft (codes " ") ≡ err (empty_string_field "signature")
unfolding into_signed_document
unsigned_test = refl

into_signed_document_iff_example : IsSignedDraft some_text plain draft (codes "signature") signed
into_signed_document_iff_example =
    (into_signed_document_iff some_text plain draft (codes "signature") signed).0 signed_test
