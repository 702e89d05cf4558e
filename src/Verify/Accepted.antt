-- ===== src/Verify/Accepted.antt =====
-- pipeline.rs: what holds of every grant that is verified.
use trustgrant.Prelude.{
  ◌≤◌, Bool, true, false, Option, List, Related-traverse, ◌≡◌, ◌↔◌, refl, sym, ap, ◌∙◌, ok,
  >>=-eq-ok, ok_iff, check_iff, length, traverse, Related, traverse-Related,
}
use trustgrant.Prelude.Text.{Text}
use trustgrant.Errors.Kinds.{TrustGrantError}
use trustgrant.Errors.Limits.{max_ownership_chain_length}
use trustgrant.Domain.Ids.{Uuid}
use trustgrant.Domain.Ownership.{OwnershipTransitionRecord}
use trustgrant.Domain.Canonicalization.{rfc8785}
use trustgrant.Revocation.{VerifiedRevocationState, non_revocable, checked}
use trustgrant.Discovery.{ResolvedSignerBinding}
use trustgrant.Document.Model.{ValidatedTrustGrantDocument}
use trustgrant.Document.Raw.{RawTrustGrantDocument}
use trustgrant.Document.Validate.{try_from}
use trustgrant.Document.Transition.Raw.{RawOwnershipTransitionDocument}
use trustgrant.Canonical.Writer.{Formats}
use trustgrant.Ports.{VerificationContext, VerificationSources, SignatureVerifier}
use trustgrant.Ownership.Chain.{verify_document_ownership}
use trustgrant.Ownership.Verdict.{IsVerified, verify_document_ownership_iff}
use trustgrant.Ownership.Verify.{verify_transition}
use trustgrant.Ownership.Signed.{
  IsSigned, verify_transition-IsSigned, IsSigned-verify_transition, request,
}
use trustgrant.Verify.Canonicalize.Document.{canonicalize_trustgrant}
use trustgrant.Verify.Consistency.{
  ensure_metadata_matches_document, ensure_revocation_state_matches_document,
  ensure_revocation_state_is_acceptable, requires_revocation_check,
}
use trustgrant.Verify.Agreement.{Agrees, ensure_metadata_matches_document_iff}
use trustgrant.Verify.Freshness.{RevocationSuits, IsRevocable, requires_iff, revocation_checks_iff}
use trustgrant.Verify.Grant.{VerificationMetadata, normalize}
use trustgrant.Verify.Pipeline.{
  VerificationArtifacts, verify_impl, verified_record, resolve_revocation,
  verify_raw_document_with_sources,
}

module _ (formats : Formats) (verifier : SignatureVerifier) where
  -- The document agrees with the metadata, its revocation suits, and its canonical bytes are signed.
  pub record Stands (raw : RawTrustGrantDocument) (d : ValidatedTrustGrantDocument)
      (m : VerificationMetadata) (a : VerificationArtifacts) : Type 0 where
    pub written : canonicalize_trustgrant formats raw rfc8785 ≡ ok a.canonical_bytes
    pub agrees : Agrees m d
    pub revocation : RevocationSuits m.posture m.verified_at d.revocation m.revocation
    pub signed :
        verifier.verify_signature (request a.canonical_bytes m.signer_binding d.signature) ≡ ok tt
    pub kept : a.verified_grant ≡ record { document = normalize d; metadata = m }

  -- The last part of the verification passes exactly when the document stands.
  pub verify_impl_iff :
      (raw : RawTrustGrantDocument) (d : ValidatedTrustGrantDocument) (m : VerificationMetadata)
      (a : VerificationArtifacts)
      → (verify_impl formats verifier raw d m ≡ ok a) ↔ Stands raw d m a
  unfolding verify_impl
  verify_impl_iff raw d m a = (forth, back)
    where
      forth : verify_impl formats verifier raw d m ≡ ok a → Stands raw d m a
      forth h =
          let (bytes, written, h₁) = >>=-eq-ok (canonicalize_trustgrant formats raw rfc8785) _ h in
          let (agrees, h₂) = (check_iff (ensure_metadata_matches_document m d rfc8785) _ a).0 h₁ in
          let (matches, h₃) = (check_iff (ensure_revocation_state_matches_document m d) _ a).0 h₂ in
          let (acceptable, h₄) = (check_iff (ensure_revocation_state_is_acceptable m) _ a).0 h₃ in
          let (signed, h₅) =
            (check_iff (verifier.verify_signature (request bytes m.signer_binding d.signature)) _
                a).0
              h₄ in
          let made = (ok_iff {E = TrustGrantError} _ a).0 h₅ in
          let same = ap (λ (x : VerificationArtifacts). x.canonical_bytes) (sym made) in
          record {
            written = written ∙ ap ok same;
            agrees = (ensure_metadata_matches_document_iff m d).0 agrees;
            revocation = (revocation_checks_iff m d).0 (matches, acceptable);
            signed =
                ap (λ b. verifier.verify_signature (request b m.signer_binding d.signature))
                  (sym same)
                ∙ signed;
            kept = ap (λ (x : VerificationArtifacts). x.verified_grant) made;
          }

      back : Stands raw d m a → verify_impl formats verifier raw d m ≡ ok a
      back s =
          let (matches, acceptable) = (revocation_checks_iff m d).1 s.revocation in
          rw
            (
              s.written,
              (ensure_metadata_matches_document_iff m d).1 s.agrees,
              matches,
              acceptable,
              s.signed,
            )
            (ap ok
              (λ i. record { verified_grant = sym s.kept i; canonical_bytes = a.canonical_bytes }))

module _ (to_lowercase : Text → Text) (parse_str : Text → Option Uuid) (formats : Formats)
    (verifier : SignatureVerifier) (sources : VerificationSources)
    (context : VerificationContext) where
  -- One transition of the chain passes exactly when both parties signed it.
  verified_record_iff :
      (raw : RawOwnershipTransitionDocument) (t : OwnershipTransitionRecord)
      → (verified_record to_lowercase parse_str formats verifier sources.discovery_source context
            raw
          ≡ ok t)
        ↔ IsSigned to_lowercase parse_str formats verifier sources.discovery_source context raw t
  unfolding verified_record
  verified_record_iff raw t = (
    λ h.
        let (v, verified, h₁) =
          >>=-eq-ok
            (verify_transition to_lowercase parse_str formats verifier sources.discovery_source
              context raw)
            _ h in
        let same = (ok_iff {E = TrustGrantError} v.transition_record t).0 h₁ in
        rw same (
          verify_transition-IsSigned to_lowercase parse_str formats verifier
            sources.discovery_source context raw v verified),
    λ s.
        let (v, verified, same) =
          IsSigned-verify_transition to_lowercase parse_str formats verifier
            sources.discovery_source context raw t s in
        rw verified (ap ok same),
  )

  -- The record of a state of revocation is the one that the source has.
  abbrev pub IsSupplied :
      ValidatedTrustGrantDocument → ResolvedSignerBinding → VerifiedRevocationState → Type 0
  IsSupplied d binding non_revocable = Unit
  IsSupplied d binding (checked r) =
      sources.revocation_source.resolve_revocation_record d binding context ≡ ok r

  -- What it takes for a document to be verified.
  pub record IsAccepted (raw : RawTrustGrantDocument) (a : VerificationArtifacts) : Type 0 where
    pub document : ValidatedTrustGrantDocument
    pub metadata : VerificationMetadata
    pub raw_transitions : List RawOwnershipTransitionDocument
    pub transitions : List OwnershipTransitionRecord
    pub validated : try_from to_lowercase parse_str raw ≡ ok document
    pub now : (metadata.verified_at ≡ context.verified_at) × (metadata.posture ≡ context.posture)
    pub signer :
        sources.discovery_source.resolve_signer_binding document.issuer_authority document.key_id
          document.issuer_principal context
        ≡ ok metadata.signer_binding
    pub supplied :
        sources.ownership_source.resolve_ownership_transition_chain document context
        ≡ ok raw_transitions
    pub signed_transitions :
        Related
          (IsSigned to_lowercase parse_str formats verifier sources.discovery_source context)
          raw_transitions
          transitions
    pub short : length transitions ≤ max_ownership_chain_length
    pub owned : IsVerified document context.verified_at transitions metadata.ownership
    pub revocation : IsSupplied document metadata.signer_binding metadata.revocation
    pub stands : Stands formats verifier raw document metadata a

  resolve_revocation-IsSupplied :
      (d : ValidatedTrustGrantDocument) (binding : ResolvedSignerBinding) (required : Bool)
      (state : VerifiedRevocationState)
      → resolve_revocation sources context d binding required ≡ ok state
      → IsSupplied d binding state
  unfolding resolve_revocation
  resolve_revocation-IsSupplied d binding true state h =
      let (r, given, h₁) =
        >>=-eq-ok (sources.revocation_source.resolve_revocation_record d binding context) _ h in
      rw ((ok_iff {E = TrustGrantError} (checked r) state).0 h₁) given
  resolve_revocation-IsSupplied d binding false state h =
      rw ((ok_iff {E = TrustGrantError} non_revocable state).0 h) tt

  verify_raw_document_with_sources-IsAccepted :
      (raw : RawTrustGrantDocument) (a : VerificationArtifacts)
      → verify_raw_document_with_sources to_lowercase parse_str formats verifier raw sources context
        ≡ ok a
      → IsAccepted raw a
  unfolding verify_raw_document_with_sources
  verify_raw_document_with_sources-IsAccepted raw a h =
      let (d, validated, h₁) = >>=-eq-ok (try_from to_lowercase parse_str raw) _ h in
      let (binding, signer, h₂) =
        >>=-eq-ok
          (sources.discovery_source.resolve_signer_binding d.issuer_authority d.key_id
            d.issuer_principal context)
          _ h₁ in
      let (raws, supplied, h₃) =
        >>=-eq-ok (sources.ownership_source.resolve_ownership_transition_chain d context) _ h₂ in
      let one =
        verified_record to_lowercase parse_str formats verifier sources.discovery_source context in
      let (ts, collected, h₄) = >>=-eq-ok (traverse one raws) _ h₃ in
      let (ownership, owned, h₅) =
        >>=-eq-ok (verify_document_ownership d context.verified_at ts) _ h₄ in
      let (state, resolved, h₆) =
        >>=-eq-ok (resolve_revocation sources context d binding (requires_revocation_check d)) _
          h₅ in
      let m : VerificationMetadata = record {
        verified_at = context.verified_at;
        posture = context.posture;
        signer_binding = binding;
        ownership = ownership;
        revocation = state;
      } in
      let (short, verdict) =
        (verify_document_ownership_iff d context.verified_at ts ownership).0 owned in
      record {
        document = d;
        metadata = m;
        raw_transitions = raws;
        transitions = ts;
        validated = validated;
        now = (refl, refl);
        signer = signer;
        supplied = supplied;
        signed_transitions =
            traverse-Related
              (IsSigned to_lowercase parse_str formats verifier sources.discovery_source context)
              one (λ r t. (verified_record_iff r t).0) raws ts collected;
        short = short;
        owned = verdict;
        revocation =
            resolve_revocation-IsSupplied d binding (requires_revocation_check d) state resolved;
        stands = (verify_impl_iff formats verifier raw d m a).0 h₆;
      }

  IsSupplied-resolve_revocation :
      (d : ValidatedTrustGrantDocument) (binding : ResolvedSignerBinding) (required : Bool)
      → (required ≡ true) ↔ IsRevocable d.revocation
      → (state : VerifiedRevocationState) → IsSupplied d binding state
      → RevocationSuits context.posture context.verified_at d.revocation state
      → resolve_revocation sources context d binding required ≡ ok state
  unfolding resolve_revocation
  IsSupplied-resolve_revocation d binding true (to, from) non_revocable s suits =
      absurd (suits (to refl))
  IsSupplied-resolve_revocation d binding true (to, from) (checked r) s suits = rw s refl
  IsSupplied-resolve_revocation d binding false (to, from) non_revocable s suits = refl
  IsSupplied-resolve_revocation d binding false (to, from) (checked r) s (revocable, suits) =
      cc (from revocable)

  IsAccepted-verify_raw_document_with_sources :
      (raw : RawTrustGrantDocument) (a : VerificationArtifacts)
      → IsAccepted raw a
      → verify_raw_document_with_sources to_lowercase parse_str formats verifier raw sources context
        ≡ ok a
  unfolding verify_raw_document_with_sources
  IsAccepted-verify_raw_document_with_sources raw a s =
      let d = s.document in
      let m = s.metadata in
      let one =
        verified_record to_lowercase parse_str formats verifier sources.discovery_source context in
      let suits : RevocationSuits context.posture context.verified_at d.revocation m.revocation =
        rw (sym s.now.0, sym s.now.1) s.stands.revocation in
      let state =
        IsSupplied-resolve_revocation d m.signer_binding (requires_revocation_check d)
          (requires_iff d) m.revocation s.revocation suits in
      let collected =
        Related-traverse
          (IsSigned to_lowercase parse_str formats verifier sources.discovery_source context) one
          (λ r t. (verified_record_iff r t).1) s.raw_transitions s.transitions
          s.signed_transitions in
      let owned =
        (verify_document_ownership_iff d context.verified_at s.transitions m.ownership).1
          (s.short, s.owned) in
      rw (s.validated, s.signer, s.supplied, collected, owned, state)
        (ap (λ n. verify_impl formats verifier raw d n)
            (λ i. record {
              verified_at = sym s.now.0 i;
              posture = sym s.now.1 i;
              signer_binding = m.signer_binding;
              ownership = m.ownership;
              revocation = m.revocation;
            })
          ∙ (verify_impl_iff formats verifier raw d m a).1 s.stands)

  -- A document is verified with sources exactly when it is valid; the transitions that the source has
  -- for it are signed by both their parties and make its owner the active one; the revocation that
  -- the source has suits; and its canonical bytes are signed with the active key that the source has
  -- for its issuer. The grant that is given is the document with what was verified of it. The issuer
  -- can be any authority, not the active owner alone, unlike in
  -- docs/OWNERSHIP_AUTHORITY_TRANSITIONS.md (§9).
  pub verify_raw_document_with_sources_iff :
      (raw : RawTrustGrantDocument) (a : VerificationArtifacts)
      → (verify_raw_document_with_sources to_lowercase parse_str formats verifier raw sources
            context
          ≡ ok a)
        ↔ IsAccepted raw a
  verify_raw_document_with_sources_iff raw a = (
    verify_raw_document_with_sources-IsAccepted raw a,
    IsAccepted-verify_raw_document_with_sources raw a,
  )
