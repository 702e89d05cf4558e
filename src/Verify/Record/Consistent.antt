-- ===== src/Verify/Record/Consistent.antt =====
-- record.rs: what holds of every grant that is read back from a record.
use trustgrant.Prelude.{
  Option, ◌≡◌, ◌↔◌, refl, ok, >>=-eq-ok, ok_iff, check_iff, guard, guard_iff, eqb, eqb_iff,
}
use trustgrant.Prelude.Text.{Text}
use trustgrant.Errors.Kinds.{TrustGrantError, unsupported_persisted_verified_grant_record_version}
use trustgrant.Domain.Ids.{Uuid}
use trustgrant.Domain.Canonicalization.{rfc8785}
use trustgrant.Document.Model.{ValidatedTrustGrantDocument}
use trustgrant.Document.Raw.{RawTrustGrantDocument}
use trustgrant.Document.Validate.{try_from}
use trustgrant.Verify.Grant.{VerifiedTrustGrant}
use trustgrant.Verify.Consistency.{
  canonical_profile_for_rehydrate, ensure_metadata_matches_document,
  ensure_revocation_state_matches_document,
}
use trustgrant.Verify.Agreement.{Agrees, ensure_metadata_matches_document_iff}
use trustgrant.Verify.Freshness.{RevocationSuits, revocation_checks_iff}
use trustgrant.Verify.Raw.{
  into_raw_document_for_consistency_check, ensure_verified_grant_consistent,
}
use trustgrant.Verify.Record.Model.{VerifiedTrustGrantRecord}
use trustgrant.Verify.Record.Rehydrate.{
  try_to_normalized_document, try_into_metadata, try_to_verified_grant,
}

module _ (to_lowercase : Text → Text) (parse_str : Text → Option Uuid)
    (uuid_text : Uuid → Text) where
  -- The document is valid when it is written out again, and the metadata fits it.
  pub record IsConsistent (g : VerifiedTrustGrant) : Type 0 where
    pub raw : RawTrustGrantDocument
    pub document : ValidatedTrustGrantDocument
    pub rebuilt : into_raw_document_for_consistency_check uuid_text g.document ≡ ok raw
    pub validated : try_from to_lowercase parse_str raw ≡ ok document
    pub agrees : Agrees g.metadata document
    pub suits :
        RevocationSuits g.metadata.posture g.metadata.verified_at document.revocation
          g.metadata.revocation

  pub record IsRehydrated (r : VerifiedTrustGrantRecord) (g : VerifiedTrustGrant) : Type 0 where
    pub version : r.record_version ≡ 1
    pub read : try_to_normalized_document to_lowercase parse_str r.document ≡ ok g.document
    pub known : try_into_metadata to_lowercase parse_str r.metadata ≡ ok g.metadata
    pub consistent : IsConsistent g

  ensure_verified_grant_consistent_iff :
      (g : VerifiedTrustGrant)
      → (ensure_verified_grant_consistent uuid_text to_lowercase parse_str g rfc8785 ≡ ok tt)
        ↔ IsConsistent g
  unfolding ensure_verified_grant_consistent
  ensure_verified_grant_consistent_iff g = (
    λ h.
        let (raw, rebuilt, h₁) =
          >>=-eq-ok (into_raw_document_for_consistency_check uuid_text g.document) _ h in
        let (d, validated, h₂) = >>=-eq-ok (try_from to_lowercase parse_str raw) _ h₁ in
        let (agrees, h₃) =
          (check_iff (ensure_metadata_matches_document g.metadata d rfc8785) _ tt).0 h₂ in
        let (matches, acceptable) =
          (check_iff (ensure_revocation_state_matches_document g.metadata d) _ tt).0 h₃ in
        record {
          raw = raw;
          document = d;
          rebuilt = rebuilt;
          validated = validated;
          agrees = (ensure_metadata_matches_document_iff g.metadata d).0 agrees;
          suits = (revocation_checks_iff g.metadata d).0 (matches, acceptable);
        },
    λ c.
        let (matches, acceptable) = (revocation_checks_iff g.metadata c.document).1 c.suits in
        rw
          (
            c.rebuilt,
            c.validated,
            (ensure_metadata_matches_document_iff g.metadata c.document).1 c.agrees,
            matches,
          )
          acceptable,
  )

  -- A record gives a verified grant exactly when it has the one version that there is, its document
  -- and its metadata can be read, and the grant that they make is consistent: its document is valid
  -- when it is written out again, with signer, owner and revocation as the metadata says.
  pub try_to_verified_grant_iff :
      (r : VerifiedTrustGrantRecord) (g : VerifiedTrustGrant)
      → (try_to_verified_grant to_lowercase parse_str uuid_text r ≡ ok g) ↔ IsRehydrated r g
  unfolding try_to_verified_grant canonical_profile_for_rehydrate
  try_to_verified_grant_iff r g = (
    λ h.
        let (v, h₁) =
          (check_iff
              (guard (eqb r.record_version 1)
                (unsupported_persisted_verified_grant_record_version r.record_version))
              _ g).0
            h in
        let (d, read, h₂) =
          >>=-eq-ok (try_to_normalized_document to_lowercase parse_str r.document) _ h₁ in
        let (m, known, h₃) = >>=-eq-ok (try_into_metadata to_lowercase parse_str r.metadata) _ h₂ in
        let made : VerifiedTrustGrant = record { document = d; metadata = m } in
        let (c, h₄) =
          (check_iff
              (ensure_verified_grant_consistent uuid_text to_lowercase parse_str made rfc8785)
              (ok made) g).0
            h₃ in
        let same = (ok_iff {E = TrustGrantError} made g).0 h₄ in
        rw same (record {
          version = (eqb_iff r.record_version 1).0 (
              (guard_iff (eqb r.record_version 1)
                  (unsupported_persisted_verified_grant_record_version r.record_version)).0
                v);
          read = read;
          known = known;
          consistent = (ensure_verified_grant_consistent_iff made).0 c;
        }),
    λ s.
        let c = (ensure_verified_grant_consistent_iff g).1 s.consistent in
        rw (s.version, s.read, s.known, c) refl,
  )
