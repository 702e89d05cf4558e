-- ===== src/Verify/Bundle/Proof.antt =====
-- bundle.rs: a proof of revocation in a bundle.
use trustgrant.Prelude.{ℕ, Option, Result, ◌>>◌, guard, refl, Eq, eq_via, pair_eq, ◌==◌, nat_eq}
use trustgrant.Errors.Kinds.{TrustGrantError, revocation_proof_grant_mismatch}
use trustgrant.Domain.Ids.{TrustGrantId}
use trustgrant.Domain.Ownership.{Instant}
use trustgrant.Revocation.{RevocationRecord, RevocationSourceKind, ProofFinality}
use trustgrant.Revocation.Proof.{RevocationFreshnessPolicy, RevocationStatusProof, into_record}
use trustgrant.Revocation.Equality.{
  revocation_status_proof_eq, revocation_source_kind_eq, proof_finality_eq, freshness_policy_eq,
}

pub record BundleRevocationProof : Type 0 where
  pub proof : RevocationStatusProof
  pub source_kind : RevocationSourceKind
  pub finality : ProofFinality
  pub freshness_policy : RevocationFreshnessPolicy

instance abbrev pub bundle_revocation_proof_eq : Eq BundleRevocationProof
bundle_revocation_proof_eq =
    eq_via (λ b. (b.proof, (b.source_kind, (b.finality, b.freshness_policy))))
      (λ (p, (s, (f, y))). record {
        proof = p;
        source_kind = s;
        finality = f;
        freshness_policy = y;
      })
      (λ b. refl) pair_eq

module _ (add_seconds : Instant → ℕ → Option Instant) where
  unfoldable pub to_record_for :
      BundleRevocationProof → TrustGrantId → Result TrustGrantError RevocationRecord
  unfolding into_record
  to_record_for bundled trustgrant_id = do
    guard (bundled.proof.trustgrant_id == trustgrant_id) revocation_proof_grant_mismatch
    into_record add_seconds bundled.proof bundled.source_kind bundled.finality
        bundled.freshness_policy
