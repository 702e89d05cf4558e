-- ===== src/Ownership/Signed.antt =====
-- verify.rs: a transition is verified exactly when both parties signed it.
use trustgrant.Prelude.{
  ◌≤◌, true, not, Option, none, some, ◌≡◌, ◌↔◌, refl, sym, ap, ◌∙◌, Result, ok, err, >>=-eq-ok,
  ok_iff, guard_iff, check_iff, ◌==◌, list_eq, nat_eq, eq_list_iff, is_some, leb, leb_iff,
}
use trustgrant.Prelude.Text.{Text, codes}
use trustgrant.Errors.Kinds.{
  TrustGrantError, signer_authority_mismatch, key_id_mismatch, signature_profile_mismatch,
  signer_key_inactive, issuer_principal_mismatch, invalid_ownership_transition_acceptance_time,
  ownership_transition_predecessor_signature_failed,
  ownership_transition_successor_signature_failed,
}
use trustgrant.Domain.Ids.{Uuid}
use trustgrant.Domain.Names.{KeyId, key_id_eq}
use trustgrant.Domain.Authority.{AuthorityId, authority_id_eq, same_authority_iff}
use trustgrant.Domain.Ownership.{Instant, OwnershipTransitionRecord}
use trustgrant.Domain.Canonicalization.{rfc8785, discovery_name}
use trustgrant.Discovery.{ResolvedSignerBinding, DelegatedPrincipalRef, is_active_at}
use trustgrant.Discovery.Active.{IsActive, IsActive-iff}
use trustgrant.Document.Transition.Raw.{
  RawOwnershipTransitionDocument, ValidatedOwnershipTransitionDocument,
}
use trustgrant.Document.Transition.Validate.{transition_try_from, to_record}
use trustgrant.Canonical.Writer.{Bytes, Formats}
use trustgrant.Ports.{
  VerificationContext, SignatureVerifier, SignatureVerificationRequest, AuthorityDiscoverySource,
}
use trustgrant.Ownership.Canonicalize.Documents.{
  canonicalize_transition_proposal, canonicalize_transition_acceptance,
}
use trustgrant.Ownership.Validity.{guard_decides}
use trustgrant.Ownership.Verify.{
  ensure_transition_signer_binding, or_fail, VerifiedOwnershipTransition, verify_signatures,
  verify_transition,
}

-- The key is the expected one and active, and no principal stands between it and the authority.
pub record SignerFits (b : ResolvedSignerBinding) (authority : AuthorityId) (key : KeyId)
    (at : Instant) : Type 0 where
  pub issuer : b.issuer_authority ≡ authority
  pub key_id : b.key_record.key_id ≡ key
  pub profile : b.signature_profile.canonicalization.as_str ≡ codes "RFC8785"
  pub active : IsActive b.key_record at
  pub direct : b.delegated_principal ≡ none

no_principal_iff : (o : Option DelegatedPrincipalRef) → (not (is_some o) ≡ true) ↔ (o ≡ none)
no_principal_iff none = (λ _. refl, λ _. refl)
no_principal_iff (some p) = (λ h. cc, λ h. cc)

pub ensure_transition_signer_binding_iff :
    (b : ResolvedSignerBinding) (authority : AuthorityId) (key : KeyId) (at : Instant)
    → (ensure_transition_signer_binding b authority key rfc8785 at ≡ ok tt)
      ↔ SignerFits b authority key at
unfolding ensure_transition_signer_binding discovery_name
ensure_transition_signer_binding_iff b authority key at =
    let (a₁, b₁) =
      guard_decides (b.issuer_authority == authority) signer_authority_mismatch _ tt
        (same_authority_iff b.issuer_authority authority) in
    let (a₂, b₂) =
      guard_decides (b.key_record.key_id == key) key_id_mismatch _ tt
        (key_id_eq.beq_iff b.key_record.key_id key) in
    let (a₃, b₃) =
      guard_decides (b.signature_profile.canonicalization.as_str == codes "RFC8785")
        signature_profile_mismatch _ tt
        (eq_list_iff b.signature_profile.canonicalization.as_str (codes "RFC8785")) in
    let (a₄, b₄) =
      guard_decides (is_active_at b.key_record at) signer_key_inactive _ tt
        (IsActive-iff b.key_record at) in
    let (g, g') = guard_iff (not (is_some b.delegated_principal)) issuer_principal_mismatch in
    let (d, d') = no_principal_iff b.delegated_principal in
    (
      λ h.
          let (p₁, h₁) = a₁ h in
          let (p₂, h₂) = a₂ h₁ in
          let (p₃, h₃) = a₃ h₂ in
          let (p₄, h₄) = a₄ h₃ in
          record { issuer = p₁; key_id = p₂; profile = p₃; active = p₄; direct = d (g h₄) },
      λ s. b₁ (s.issuer, b₂ (s.key_id, b₃ (s.profile, b₄ (s.active, g' (d' s.direct))))),
    )

or_fail-ok :
    {A : Type 0} (m : Result TrustGrantError A) (e : TrustGrantError) (a : A)
    → or_fail m e ≡ ok a
    → m ≡ ok a
or_fail-ok (ok b) e a h = h
or_fail-ok (err f) e a h = cc

abbrev pub request : Bytes → ResolvedSignerBinding → Text → SignatureVerificationRequest
request bytes binding signature = record {
  canonical_bytes = bytes;
  canonicalization_profile = rfc8785;
  signer_binding = binding;
  signature = signature;
}

module _ (formats : Formats) (verifier : SignatureVerifier) (context : VerificationContext) where
  -- Both parties signed: the predecessor what is proposed and the successor, not later than now, what
  -- is accepted.
  pub record BothSign (raw : RawOwnershipTransitionDocument)
      (d : ValidatedOwnershipTransitionDocument) (predecessor successor : ResolvedSignerBinding)
      (t : OwnershipTransitionRecord) : Type 0 where
    pub proposal : Bytes
    pub acceptance : Bytes
    pub predecessor_fits :
        SignerFits predecessor d.parties.predecessor_authority d.predecessor_signature.key_id
          context.verified_at
    pub successor_fits :
        SignerFits successor d.parties.successor_authority d.successor_acceptance.key_id
          context.verified_at
    pub accepted : d.successor_acceptance.accepted_at ≤ context.verified_at
    pub proposed : canonicalize_transition_proposal formats raw rfc8785 ≡ ok proposal
    pub predecessor_signed :
        verifier.verify_signature (request proposal predecessor d.predecessor_signature.signature)
        ≡ ok tt
    pub accepting : canonicalize_transition_acceptance formats raw rfc8785 ≡ ok acceptance
    pub successor_signed :
        verifier.verify_signature (request acceptance successor d.successor_acceptance.signature)
        ≡ ok tt
    pub recorded : to_record d ≡ ok t

  -- The code behind the checks of the signers and of the time.
  signatures_lem :
      (raw : RawOwnershipTransitionDocument) (d : ValidatedOwnershipTransitionDocument)
      (p s : ResolvedSignerBinding) (v : VerifiedOwnershipTransition)
      → verify_signatures formats verifier context raw d p s ≡ ok v
      → BothSign raw d p s v.transition_record
  unfolding verify_signatures
  signatures_lem raw d p s v h =
      let (f, h₁) =
        (check_iff
            (ensure_transition_signer_binding p d.parties.predecessor_authority
              d.predecessor_signature.key_id rfc8785 context.verified_at)
            _ v).0
          h in
      let (g, h₂) =
        (check_iff
            (ensure_transition_signer_binding s d.parties.successor_authority
              d.successor_acceptance.key_id rfc8785 context.verified_at)
            _ v).0
          h₁ in
      let (accepted, h₃) =
        (guard_decides (leb d.successor_acceptance.accepted_at context.verified_at)
            invalid_ownership_transition_acceptance_time _ v
            (leb_iff d.successor_acceptance.accepted_at context.verified_at)).0
          h₂ in
      let (x, proposed, h₄) =
        >>=-eq-ok (canonicalize_transition_proposal formats raw rfc8785) _ h₃ in
      let first = verifier.verify_signature (request x p d.predecessor_signature.signature) in
      let (signed, h₅) =
        (check_iff (or_fail first ownership_transition_predecessor_signature_failed) _ v).0 h₄ in
      let (y, accepting, h₆) =
        >>=-eq-ok (canonicalize_transition_acceptance formats raw rfc8785) _ h₅ in
      let second = verifier.verify_signature (request y s d.successor_acceptance.signature) in
      let (signed', h₇) =
        (check_iff (or_fail second ownership_transition_successor_signature_failed) _ v).0 h₆ in
      let (t, recorded, h₈) = >>=-eq-ok (to_record d) _ h₇ in
      let made = (ok_iff {E = TrustGrantError} _ v).0 h₈ in
      record {
        proposal = x;
        acceptance = y;
        predecessor_fits =
            (ensure_transition_signer_binding_iff p d.parties.predecessor_authority
                d.predecessor_signature.key_id context.verified_at).0
              f;
        successor_fits =
            (ensure_transition_signer_binding_iff s d.parties.successor_authority
                d.successor_acceptance.key_id context.verified_at).0
              g;
        accepted = accepted;
        proposed = proposed;
        predecessor_signed =
            or_fail-ok first ownership_transition_predecessor_signature_failed tt signed;
        accepting = accepting;
        successor_signed =
            or_fail-ok second ownership_transition_successor_signature_failed tt signed';
        recorded =
            recorded ∙ ap (λ (w : VerifiedOwnershipTransition). ok w.transition_record) (sym made);
      }

module _ (to_lowercase : Text → Text) (parse_str : Text → Option Uuid) (formats : Formats)
    (verifier : SignatureVerifier) (source : AuthorityDiscoverySource)
    (context : VerificationContext) where
  -- The transition is valid, and both parties signed with the keys that the source has for them.
  pub record IsSigned (raw : RawOwnershipTransitionDocument) (t : OwnershipTransitionRecord)
      : Type 0 where
    pub document : ValidatedOwnershipTransitionDocument
    pub predecessor : ResolvedSignerBinding
    pub successor : ResolvedSignerBinding
    pub validated : transition_try_from to_lowercase parse_str raw ≡ ok document
    pub predecessor_resolved :
        source.resolve_signer_binding document.parties.predecessor_authority
          document.predecessor_signature.key_id none context
        ≡ ok predecessor
    pub successor_resolved :
        source.resolve_signer_binding document.parties.successor_authority
          document.successor_acceptance.key_id none context
        ≡ ok successor
    pub both_sign : BothSign formats verifier context raw document predecessor successor t

  -- A transition that is verified is valid, and was proposed with a signature of its predecessor and
  -- accepted, not later than now, with a signature of its successor, each with the active key that
  -- the source has for that authority itself; its record is that of the valid transition.
  pub verify_transition-IsSigned :
      (raw : RawOwnershipTransitionDocument) (v : VerifiedOwnershipTransition)
      → verify_transition to_lowercase parse_str formats verifier source context raw ≡ ok v
      → IsSigned raw v.transition_record
  unfolding verify_transition
  verify_transition-IsSigned raw v h =
      let (d, validated, h₁) = >>=-eq-ok (transition_try_from to_lowercase parse_str raw) _ h in
      let (p, predecessor, h₂) =
        >>=-eq-ok
          (source.resolve_signer_binding d.parties.predecessor_authority
            d.predecessor_signature.key_id none context)
          _ h₁ in
      let (s, successor, h₃) =
        >>=-eq-ok
          (source.resolve_signer_binding d.parties.successor_authority d.successor_acceptance.key_id
            none context)
          _ h₂ in
      record {
        document = d;
        predecessor = p;
        successor = s;
        validated = validated;
        predecessor_resolved = predecessor;
        successor_resolved = successor;
        both_sign = signatures_lem formats verifier context raw d p s v h₃;
      }

  -- And every such transition is verified.
  pub IsSigned-verify_transition :
      (raw : RawOwnershipTransitionDocument) (t : OwnershipTransitionRecord)
      → IsSigned raw t
      → (v : VerifiedOwnershipTransition) × (verify_transition to_lowercase parse_str formats
            verifier source context raw
          ≡ ok v)
        × (v.transition_record ≡ t)
  unfolding verify_transition verify_signatures
  IsSigned-verify_transition raw t s =
      let d = s.document in
      let b = s.both_sign in
      (
        record {
          document = d;
          metadata = record {
            verified_at = context.verified_at;
            posture = context.posture;
            predecessor_signer_binding = s.predecessor;
            successor_signer_binding = s.successor;
          };
          transition_record = t;
        },
        rw
            (
              s.validated,
              s.predecessor_resolved,
              s.successor_resolved,
              (ensure_transition_signer_binding_iff s.predecessor d.parties.predecessor_authority
                    d.predecessor_signature.key_id context.verified_at).1
                  b.predecessor_fits,
              (ensure_transition_signer_binding_iff s.successor d.parties.successor_authority
                    d.successor_acceptance.key_id context.verified_at).1
                  b.successor_fits,
              (leb_iff d.successor_acceptance.accepted_at context.verified_at).1 b.accepted,
              b.proposed,
              b.predecessor_signed,
              b.accepting,
              b.successor_signed,
              b.recorded,
            )
            refl,
        refl,
      )
