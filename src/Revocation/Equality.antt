-- ===== src/Revocation/Equality.antt =====
-- The derived `PartialEq` of proofs of revocation and of what they are made of.
use trustgrant.Prelude.{Bool, true, false, refl, ◌≡◌, ◌↔◌, arith, Eq, eq_via, pair_eq, nat_eq}
use trustgrant.Revocation.{
  ProofFinality, unknown, observed, trusted_snapshot, finalized, RevocationStatus, active, revoked,
  RevocationSourceKind, api, snapshot, proof_bundle, chain_state, other,
}
use trustgrant.Revocation.Proof.{RevocationFreshnessPolicy, RevocationStatusProof}

abbrev same_status : RevocationStatus → RevocationStatus → Bool
same_status active active = true
same_status revoked revoked = true
same_status _ _ = false

pub same_status_iff : (a b : RevocationStatus) → (same_status a b ≡ true) ↔ (a ≡ b)
same_status_iff a b = ground arith

instance abbrev pub revocation_status_eq : Eq RevocationStatus
revocation_status_eq = record { beq = same_status; beq_iff = same_status_iff }

abbrev same_source_kind : RevocationSourceKind → RevocationSourceKind → Bool
same_source_kind api api = true
same_source_kind snapshot snapshot = true
same_source_kind proof_bundle proof_bundle = true
same_source_kind chain_state chain_state = true
same_source_kind other other = true
same_source_kind _ _ = false

pub same_source_kind_iff : (a b : RevocationSourceKind) → (same_source_kind a b ≡ true) ↔ (a ≡ b)
same_source_kind_iff a b = ground arith

instance abbrev pub revocation_source_kind_eq : Eq RevocationSourceKind
revocation_source_kind_eq = record { beq = same_source_kind; beq_iff = same_source_kind_iff }

abbrev same_finality : ProofFinality → ProofFinality → Bool
same_finality unknown unknown = true
same_finality observed observed = true
same_finality trusted_snapshot trusted_snapshot = true
same_finality finalized finalized = true
same_finality _ _ = false

pub same_finality_iff : (a b : ProofFinality) → (same_finality a b ≡ true) ↔ (a ≡ b)
same_finality_iff a b = ground arith

instance abbrev pub proof_finality_eq : Eq ProofFinality
proof_finality_eq = record { beq = same_finality; beq_iff = same_finality_iff }

instance abbrev pub freshness_policy_eq : Eq RevocationFreshnessPolicy
freshness_policy_eq =
    eq_via (λ p. (p.non_revoked_ttl_seconds, p.max_stale_seconds))
      (λ (n, m). record { non_revoked_ttl_seconds = n; max_stale_seconds = m }) (λ p. refl) pair_eq

instance abbrev pub revocation_status_proof_eq : Eq RevocationStatusProof
revocation_status_proof_eq =
    eq_via (λ p. (p.trustgrant_id, (p.status, p.checked_at)))
      (λ (i, (s, c)). record { trustgrant_id = i; status = s; checked_at = c }) (λ p. refl) pair_eq
