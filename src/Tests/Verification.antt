-- ===== src/Tests/Verification.antt =====
-- A grant of the shop for the items that the studio handed over, verified from the raw document.
use trustgrant.Prelude.{true, none, some, [], ◌∷◌, ◌≡◌, refl, ok, err}
use trustgrant.Prelude.Text.{codes, map_chars, ascii_lower}
use trustgrant.Errors.Kinds.{stale_revocation_record}
use trustgrant.Domain.Canonicalization.{rfc8785}
use trustgrant.Domain.Ownership.{transition_chain}
use trustgrant.Revocation.{checked, active, api, finalized, RevocationRecord}
use trustgrant.Document.Model.{ValidatedTrustGrantDocument, block_all}
use trustgrant.Document.Raw.{RawTrustGrantDocument}
use trustgrant.Ports.{VerificationSources, online}
use trustgrant.Verify.Grant.{VerificationMetadata, normalize}
use trustgrant.Verify.Canonicalize.Document.{canonicalize_trustgrant}
use trustgrant.Verify.Consistency.{
  ensure_metadata_matches_document, ensure_revocation_state_matches_document,
  ensure_revocation_state_is_acceptable,
}
use trustgrant.Verify.Agreement.{Agrees, ensure_metadata_matches_document_iff}
use trustgrant.Verify.Freshness.{RevocationSuits, revocation_checks_iff}
use trustgrant.Verify.Pipeline.{
  VerificationArtifacts, verify_impl, verify_raw_document_with_sources,
}
use trustgrant.Verify.Accepted.{
  Stands, verify_impl_iff, IsAccepted, verify_raw_document_with_sources_iff,
}
use trustgrant.Tests.Fixture.{studio, shop, document}
use trustgrant.Tests.Documents.{lower, parse_length, raw_document}
use trustgrant.Tests.Writing.{plain, bytes_of}
use trustgrant.Tests.Transitions.{handover, binding, one_key, trusting, today}

abbrev pub raw_grant : RawTrustGrantDocument
raw_grant = record (raw_document none) {
  issuer_authority = codes "https://shop";
  active_owning_authority = codes "https://shop";
  revocation = some (record {
    revocable = true;
    revocation_endpoint = codes "https://shop/revoked";
    post_revocation_effect = block_all;
  });
}

abbrev record_at_18 : RevocationRecord
record_at_18 = record {
  status = active;
  source_kind = api;
  finality = finalized;
  checked_at = 18;
  fresh_until = 90;
}

abbrev pub sources : VerificationSources
sources = record {
  discovery_source = one_key;
  revocation_source = record { resolve_revocation_record = λ d b context. ok record_at_18 };
  ownership_source = record {
    resolve_ownership_transition_chain = λ d context. ok (handover ∷ []);
  };
}

abbrev pub granted : ValidatedTrustGrantDocument
granted = record (document shop) {
  revocation = some (record {
    revocable = true;
    revocation_endpoint = codes "https://shop/revoked";
    post_revocation_effect = block_all;
  });
}

abbrev pub metadata : VerificationMetadata
metadata = record {
  verified_at = 20;
  posture = online;
  signer_binding = binding shop;
  ownership = record {
    origin_authority = studio;
    active_owning_authority = shop;
    checked_at = 20;
    proof_kind = transition_chain;
    transition_chain_tip = some 5;
  };
  revocation = checked record_at_18;
}

abbrev pub artifacts : VerificationArtifacts
artifacts = record {
  verified_grant = record { document = normalize granted; metadata = metadata };
  canonical_bytes = bytes_of (canonicalize_trustgrant plain raw_grant rfc8785);
}

accepted_test :
    verify_raw_document_with_sources lower parse_length plain trusting raw_grant sources today
    ≡ ok artifacts
unfolding verify_raw_document_with_sources map_chars ascii_lower
accepted_test = refl

verify_raw_document_with_sources_iff_example :
    IsAccepted lower parse_length plain trusting sources today raw_grant artifacts
verify_raw_document_with_sources_iff_example =
    (verify_raw_document_with_sources_iff lower parse_length plain trusting sources today raw_grant
        artifacts).0
      accepted_test

late_test :
    verify_raw_document_with_sources lower parse_length plain trusting raw_grant sources
      (record { verified_at = 91; posture = online })
    ≡ err stale_revocation_record
unfolding verify_raw_document_with_sources map_chars ascii_lower
late_test = refl

verify_impl_test : verify_impl plain trusting raw_grant granted metadata ≡ ok artifacts
unfolding verify_impl
verify_impl_test = refl

verify_impl_iff_example : Stands plain trusting raw_grant granted metadata artifacts
verify_impl_iff_example =
    (verify_impl_iff plain trusting raw_grant granted metadata artifacts).0 verify_impl_test

agrees_test : ensure_metadata_matches_document metadata granted rfc8785 ≡ ok tt
unfolding ensure_metadata_matches_document
agrees_test = refl

ensure_metadata_matches_document_iff_example : Agrees metadata granted
ensure_metadata_matches_document_iff_example =
    (ensure_metadata_matches_document_iff metadata granted).0 agrees_test

matches_test : ensure_revocation_state_matches_document metadata granted ≡ ok tt
unfolding ensure_revocation_state_matches_document
matches_test = refl

acceptable_test : ensure_revocation_state_is_acceptable metadata ≡ ok tt
unfolding ensure_revocation_state_is_acceptable
acceptable_test = refl

revocation_checks_iff_example : RevocationSuits online 20 granted.revocation (checked record_at_18)
revocation_checks_iff_example =
    (revocation_checks_iff metadata granted).0 (matches_test, acceptable_test)
