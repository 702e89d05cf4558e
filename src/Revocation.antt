-- ===== src/Revocation.antt =====
-- crates/trustgrant-revocation/src/status.rs: what is known of a grant's revocation.
pub mod Proof
pub mod Equality
pub mod Windows
use trustgrant.Prelude.{
  Bool, true, false, Option, none, some, Result, ok, err, if◌then◌else◌, ltb, leb,
}
use trustgrant.Errors.Kinds.{TrustGrantError, invalid_revocation_freshness_window}
use trustgrant.Domain.Ownership.{Instant}

pub data ProofFinality : Type 0 where
  unknown observed trusted_snapshot finalized : ProofFinality

pub data RevocationStatus : Type 0 where
  active revoked : RevocationStatus

pub data RevocationSourceKind : Type 0 where
  api snapshot proof_bundle chain_state other : RevocationSourceKind

unfoldable pub is_non_live : RevocationSourceKind → Bool
is_non_live snapshot = true
is_non_live proof_bundle = true
is_non_live _ = false

pub record RevocationRecord : Type 0 where
  pub status : RevocationStatus
  pub source_kind : RevocationSourceKind
  pub finality : ProofFinality
  pub checked_at : Instant
  pub fresh_until : Instant

unfoldable pub new_revocation_record :
    RevocationStatus
    → RevocationSourceKind
    → ProofFinality
    → Instant
    → Instant
    → Result TrustGrantError RevocationRecord
new_revocation_record status source_kind finality checked_at fresh_until =
    if ltb fresh_until checked_at
    then err invalid_revocation_freshness_window
    else ok (record {
      status = status;
      source_kind = source_kind;
      finality = finality;
      checked_at = checked_at;
      fresh_until = fresh_until;
    })

unfoldable pub is_fresh_at : RevocationRecord → Instant → Bool
is_fresh_at r timestamp = leb timestamp r.fresh_until

pub data VerifiedRevocationState : Type 0 where
  non_revocable : VerifiedRevocationState
  checked : RevocationRecord → VerifiedRevocationState

unfoldable pub checked_record : VerifiedRevocationState → Option RevocationRecord
checked_record non_revocable = none
checked_record (checked r) = some r

abbrev pub status_is_revoked : RevocationStatus → Bool
status_is_revoked revoked = true
status_is_revoked active = false

unfoldable pub is_revoked : VerifiedRevocationState → Bool
is_revoked non_revocable = false
is_revoked (checked r) = status_is_revoked r.status
