-- ===== src/Verify/Freshness.antt =====
-- consistency.rs, policy.rs: which state of revocation a verification accepts.
use trustgrant.Prelude.{
  ◌≤◌, Bool, true, false, ◌&&◌, not, Option, none, some, ◌≡◌, ◌↔◌, ◌⊎◌, refl, arith, ok, guard_iff,
  leb, leb_iff,
}
use trustgrant.Errors.Kinds.{
  stale_revocation_record, verification_posture_requires_non_live_revocation,
  insufficient_revocation_proof_finality,
}
use trustgrant.Domain.Ownership.{Instant}
use trustgrant.Revocation.{
  ProofFinality, unknown, trusted_snapshot, finalized, RevocationSourceKind, snapshot, proof_bundle,
  is_non_live, is_fresh_at, RevocationRecord, VerifiedRevocationState, non_revocable, checked,
  checked_record,
}
use trustgrant.Document.Model.{ValidatedRevocation, ValidatedTrustGrantDocument}
use trustgrant.Ports.{VerificationPosture, online, cached, offline}
use trustgrant.Ownership.Validity.{guard_decides}
use trustgrant.Verify.Policy.{
  for_posture, accepts_revocation_finality, accepts_revocation_source_kind,
}
use trustgrant.Verify.Grant.{VerificationMetadata}
use trustgrant.Verify.Consistency.{
  requires_revocation_check, proof_fits, ensure_revocation_state_matches_document,
  ensure_record_is_acceptable, acceptable, ensure_revocation_state_is_acceptable,
}

-- Away from the network a source must be a snapshot or a bundle.
abbrev pub SourceSuits : VerificationPosture → RevocationSourceKind → Type 0
SourceSuits online kind = Unit
SourceSuits cached kind = (kind ≡ snapshot) ⊎ (kind ≡ proof_bundle)
SourceSuits offline kind = (kind ≡ snapshot) ⊎ (kind ≡ proof_bundle)

abbrev pub FinalitySuits : VerificationPosture → ProofFinality → Type 0
FinalitySuits online finality = ¬ (finality ≡ unknown)
FinalitySuits cached finality = (finality ≡ trusted_snapshot) ⊎ (finality ≡ finalized)
FinalitySuits offline finality = (finality ≡ trusted_snapshot) ⊎ (finality ≡ finalized)

pub record Suits (posture : VerificationPosture) (at : Instant) (r : RevocationRecord)
    : Type 0 where
  pub fresh : at ≤ r.fresh_until
  pub source : SourceSuits posture r.source_kind
  pub finality : FinalitySuits posture r.finality

abbrev pub IsRevocable : Option ValidatedRevocation → Type 0
IsRevocable none = ⊥
IsRevocable (some revocation) = revocation.revocable ≡ true

-- A revocable grant has a record that suits, any other grant has none.
abbrev pub RevocationSuits :
    VerificationPosture → Instant → Option ValidatedRevocation → VerifiedRevocationState → Type 0
RevocationSuits posture at revocation non_revocable = ¬ IsRevocable revocation
RevocationSuits posture at revocation (checked r) = IsRevocable revocation × Suits posture at r

source_iff :
    (posture : VerificationPosture) (kind : RevocationSourceKind)
    → (not (
          (for_posture posture).require_non_live_revocation_source
          && not (accepts_revocation_source_kind (for_posture posture) kind))
        ≡ true)
      ↔ SourceSuits posture kind
unfolding for_posture accepts_revocation_source_kind is_non_live
source_iff online kind = (λ _. tt, λ _. refl)
source_iff cached kind = ground arith
source_iff offline kind = ground arith

finality_iff :
    (posture : VerificationPosture) (finality : ProofFinality)
    → (accepts_revocation_finality (for_posture posture) finality ≡ true)
      ↔ FinalitySuits posture finality
unfolding for_posture accepts_revocation_finality
finality_iff online finality = ground arith
finality_iff cached finality = ground arith
finality_iff offline finality = ground arith

record_iff :
    (m : VerificationMetadata) (r : RevocationRecord)
    → (ensure_record_is_acceptable m r ≡ ok tt) ↔ Suits m.posture m.verified_at r
unfolding ensure_record_is_acceptable is_fresh_at
record_iff m r =
    let policy = for_posture m.posture in
    let (a, b) =
      guard_decides (leb m.verified_at r.fresh_until) stale_revocation_record _ tt
        (leb_iff m.verified_at r.fresh_until) in
    let (c, d) =
      guard_decides
        (not (
          policy.require_non_live_revocation_source
          && not (accepts_revocation_source_kind policy r.source_kind)))
        verification_posture_requires_non_live_revocation _ tt
        (source_iff m.posture r.source_kind) in
    let (g, g') =
      guard_iff (accepts_revocation_finality policy r.finality)
        insufficient_revocation_proof_finality in
    let (f, f') = finality_iff m.posture r.finality in
    (
      λ h.
          let (fresh, h₁) = a h in
          let (source, h₂) = c h₁ in record { fresh = fresh; source = source; finality = f (g h₂) },
      λ s. b (s.fresh, d (s.source, g' (f' s.finality))),
    )

pub requires_iff :
    (d : ValidatedTrustGrantDocument)
    → (requires_revocation_check d ≡ true) ↔ IsRevocable d.revocation
unfolding requires_revocation_check
requires_iff d = required d.revocation
  where
    required :
        (revocation : Option ValidatedRevocation)
        → (elim revocation [ none ↦ false | some r ↦ r.revocable ] ≡ true) ↔ IsRevocable revocation
    required none = (λ h. cc, λ h. elim h [ ])
    required (some r) = (λ h. h, λ h. h)

-- The two checks on the state, for a state and what the document says.
checks_iff :
    (m : VerificationMetadata) (revocation : Option ValidatedRevocation) (required : Bool)
    → (required ≡ true) ↔ IsRevocable revocation
    → (state : VerifiedRevocationState)
    → ((proof_fits required state ≡ ok tt) × (acceptable m (checked_record state) ≡ ok tt))
      ↔ RevocationSuits m.posture m.verified_at revocation state
unfolding checked_record
checks_iff m revocation true (to, from) non_revocable = (λ (h, _). cc, λ h. absurd (h (to refl)))
checks_iff m revocation false (to, from) non_revocable = (λ _. λ h. cc (from h), λ _. (refl, refl))
checks_iff m revocation true (to, from) (checked r) =
    let (a, b) = record_iff m r in (λ (_, h). (to refl, a h), λ (_, s). (refl, b s))
checks_iff m revocation false (to, from) (checked r) = (λ (h, _). cc, λ (h, _). cc (from h))

-- The state of revocation passes its two checks exactly when it suits: a grant that can be revoked
-- has a record that is fresh and, for the posture, from a source and of a finality that suffice; a
-- grant that cannot be revoked has none.
pub revocation_checks_iff :
    (m : VerificationMetadata) (d : ValidatedTrustGrantDocument)
    → ((ensure_revocation_state_matches_document m d ≡ ok tt)
        × (ensure_revocation_state_is_acceptable m ≡ ok tt))
      ↔ RevocationSuits m.posture m.verified_at d.revocation m.revocation
unfolding ensure_revocation_state_matches_document ensure_revocation_state_is_acceptable
revocation_checks_iff m d =
    checks_iff m d.revocation (requires_revocation_check d) (requires_iff d) m.revocation
