-- ===== src/Revocation/Proof.antt =====
-- crates/trustgrant-revocation/src/proof.rs: a proof of a grant's status, and the record that it
-- gives. `add_seconds` is `checked_add_signed` of `Duration::seconds`, where that returns; `from_str` is
-- serde's reading of JSON.
use trustgrant.Prelude.{ℕ, Option, Result, ok, ◌>>=◌, ◌>>◌, guard, ok_or, not, eqb, leb}
use trustgrant.Prelude.Text.{Text, byte_len}
use trustgrant.Errors.Kinds.{
  TrustGrantError, invalid_revocation_policy, invalid_revocation_proof_document,
}
use trustgrant.Errors.Limits.{ensure_json_size, max_revocation_proof_json_bytes}
use trustgrant.Domain.Ids.{Uuid, TrustGrantId, parse_prefixed_uuid}
use trustgrant.Domain.Ownership.{Instant}
use trustgrant.Revocation.{
  RevocationStatus, RevocationSourceKind, ProofFinality, RevocationRecord, new_revocation_record,
}

-- The greatest `i64`.
abbrev pub i64_max : ℕ
i64_max = 9223372036854775807

-- Both are `NonZeroU64`.
pub record RevocationFreshnessPolicy : Type 0 where
  pub non_revoked_ttl_seconds : ℕ
  pub max_stale_seconds : ℕ

unfoldable pub new_freshness_policy : ℕ → ℕ → Result TrustGrantError RevocationFreshnessPolicy
new_freshness_policy non_revoked_ttl_seconds max_stale_seconds = do
  guard (not (eqb non_revoked_ttl_seconds 0)) invalid_revocation_policy
  guard (not (eqb max_stale_seconds 0)) invalid_revocation_policy
  ok (record {
    non_revoked_ttl_seconds = non_revoked_ttl_seconds;
    max_stale_seconds = max_stale_seconds;
  })

pub data RawRevocationStatus : Type 0 where
  active revoked : RawRevocationStatus

pub record RawRevocationStatusProof : Type 0 where
  pub trustgrant_id : Text
  pub status : RawRevocationStatus
  pub checked_at : Instant

pub record RevocationStatusProof : Type 0 where
  pub trustgrant_id : TrustGrantId
  pub status : RevocationStatus
  pub checked_at : Instant

abbrev pub status_of : RawRevocationStatus → RevocationStatus
status_of RawRevocationStatus.active = RevocationStatus.active
status_of RawRevocationStatus.revoked = RevocationStatus.revoked

-- How long a record of a status stays fresh.
abbrev pub ttl_for : RevocationStatus → RevocationFreshnessPolicy → ℕ
ttl_for RevocationStatus.active policy = policy.non_revoked_ttl_seconds
ttl_for RevocationStatus.revoked policy = policy.max_stale_seconds

module _ (add_seconds : Instant → ℕ → Option Instant) where
  unfoldable pub into_record :
      RevocationStatusProof
      → RevocationSourceKind
      → ProofFinality
      → RevocationFreshnessPolicy
      → Result TrustGrantError RevocationRecord
  unfolding new_revocation_record
  into_record proof source_kind finality policy = do
    guard (leb (ttl_for proof.status policy) i64_max) invalid_revocation_policy
    fresh_until ←
        ok_or (add_seconds proof.checked_at (ttl_for proof.status policy)) invalid_revocation_policy
    new_revocation_record proof.status source_kind finality proof.checked_at fresh_until

module _ (parse_str : Text → Option Uuid) where
  unfoldable pub proof_try_from :
      RawRevocationStatusProof → Result TrustGrantError RevocationStatusProof
  unfolding parse_prefixed_uuid
  proof_try_from raw = do
    trustgrant_id ← parse_prefixed_uuid parse_str raw.trustgrant_id "tg"
    ok (record {
      trustgrant_id = trustgrant_id;
      status = status_of raw.status;
      checked_at = raw.checked_at;
    })

  unfoldable pub parse_revocation_status_proof :
      (Text → Option RawRevocationStatusProof) → Text → Result TrustGrantError RevocationStatusProof
  unfolding ensure_json_size proof_try_from byte_len
  parse_revocation_status_proof from_str json = do
    ensure_json_size "revocation_proof" (byte_len json) max_revocation_proof_json_bytes
    raw ← ok_or (from_str json) invalid_revocation_proof_document
    proof_try_from raw
