-- ===== src/Issue/Laws.antt =====
-- draft.rs: what an issuer signs is what a verifier reads. The draft writes its document twice, in
-- `signable_document` for the signing and in `into_signable_document` for what is published.
use trustgrant.Prelude.{
  true, not, ◌≡◌, ◌↔◌, refl, sym, ◌∙◌, ok, >>=-eq-ok, ok_iff, check_iff, guard, guard_iff, is_empty,
  nat_eq, option_eq,
}
use trustgrant.Prelude.Text.{Text, trim}
use trustgrant.Errors.Kinds.{TrustGrantError, empty_string_field}
use trustgrant.Domain.Ids.{Uuid}
use trustgrant.Domain.Lineage.{SupersessionPolicy}
use trustgrant.Domain.Lineage
use trustgrant.Domain.Canonicalization.{rfc8785}
use trustgrant.Document.Raw.{RawTrustGrantDocument}
use trustgrant.Canonical.Writer.{Formats}
use trustgrant.Verify.Canonicalize.Document.{canonicalize_trustgrant, write_trustgrant_document}
use trustgrant.Issue.Draft.{
  TrustGrantDraft, raw_policy, into_raw_policy, signable_document, into_signable_document,
  into_signed_document, canonical_bytes,
}

raw_policy-into_raw_policy : (p : SupersessionPolicy) → into_raw_policy p ≡ raw_policy p
raw_policy-into_raw_policy Lineage.SupersessionPolicy.coexist = refl
raw_policy-into_raw_policy Lineage.SupersessionPolicy.supersede_previous = refl
raw_policy-into_raw_policy Lineage.SupersessionPolicy.explicit_revocation_required = refl

module _ (uuid_text : Uuid → Text) where
  -- The two functions write the same document.
  into_signable_document_lem :
      (d : TrustGrantDraft) → into_signable_document uuid_text d ≡ signable_document uuid_text d
  unfolding into_signable_document signable_document
  into_signable_document_lem d = rw (raw_policy-into_raw_policy d.supersession_policy) refl

module _ (uuid_text : Uuid → Text) (formats : Formats) where
  -- The document that the draft offered for signing, with the signature, and with the bytes that were
  -- signed.
  pub record IsSignedDraft (d : TrustGrantDraft) (signature : Text)
      (document : RawTrustGrantDocument) : Type 0 where
    pub given : not (is_empty (trim signature)) ≡ true
    pub signable : RawTrustGrantDocument
    pub offered : signable_document uuid_text d ≡ ok signable
    pub finished : document ≡ record signable { signature = signature }
    pub signed_bytes :
        canonicalize_trustgrant formats document rfc8785 ≡ canonical_bytes uuid_text formats d

  canonical_bytes-signature :
      (d : TrustGrantDraft) (signature : Text) (signable : RawTrustGrantDocument)
      → signable_document uuid_text d ≡ ok signable
      → canonicalize_trustgrant formats (record signable { signature = signature }) rfc8785
        ≡ canonical_bytes uuid_text formats d
  unfolding canonical_bytes canonicalize_trustgrant write_trustgrant_document
  canonical_bytes-signature d signature signable offered = rw offered refl

  -- A draft is finished with a signature exactly to the document that it offered for signing with
  -- that signature in it, when the signature is not blank; and that document has the canonical
  -- bytes that the draft gave to be signed.
  pub into_signed_document_iff :
      (d : TrustGrantDraft) (signature : Text) (document : RawTrustGrantDocument)
      → (into_signed_document uuid_text d signature ≡ ok document)
        ↔ IsSignedDraft d signature document
  unfolding into_signed_document
  into_signed_document_iff d signature document = (
    λ h.
        let blank = guard (not (is_empty (trim signature))) (empty_string_field "signature") in
        let (given, h₁) = (check_iff blank _ document).0 h in
        let (signable, written, h₂) = >>=-eq-ok (into_signable_document uuid_text d) _ h₁ in
        let offered = sym (into_signable_document_lem uuid_text d) ∙ written in
        let finished =
          (ok_iff {E = TrustGrantError} (record signable { signature = signature }) document).0
            h₂ in
        record {
          given =
              (guard_iff (not (is_empty (trim signature))) (empty_string_field "signature")).0
                given;
          signable = signable;
          offered = offered;
          finished = finished;
          signed_bytes = rw finished (canonical_bytes-signature d signature signable offered);
        },
    λ s. rw (s.given, into_signable_document_lem uuid_text d, s.offered, s.finished) refl,
  )
