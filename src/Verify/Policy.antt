-- ===== src/Verify/Policy.antt =====
-- crates/trustgrant-verify/src/policy.rs: which records of revocation a posture accepts.
use trustgrant.Prelude.{ℕ, Bool, true, false, ◌||◌, not, leb}
use trustgrant.Revocation.{
  ProofFinality, unknown, observed, trusted_snapshot, finalized, RevocationSourceKind, is_non_live,
}
use trustgrant.Ports.{VerificationPosture, online, cached, offline}

pub record VerificationPolicy : Type 0 where
  pub minimum_revocation_finality : ProofFinality
  pub require_non_live_revocation_source : Bool

unfoldable pub for_posture : VerificationPosture → VerificationPolicy
for_posture online = record {
  minimum_revocation_finality = observed;
  require_non_live_revocation_source = false;
}
for_posture cached = record {
  minimum_revocation_finality = trusted_snapshot;
  require_non_live_revocation_source = true;
}
for_posture offline = record {
  minimum_revocation_finality = trusted_snapshot;
  require_non_live_revocation_source = true;
}

-- The derived order of `ProofFinality`.
abbrev pub rank : ProofFinality → ℕ
rank unknown = 0
rank observed = 1
rank trusted_snapshot = 2
rank finalized = 3

unfoldable pub accepts_revocation_finality : VerificationPolicy → ProofFinality → Bool
accepts_revocation_finality policy finality =
    leb (rank policy.minimum_revocation_finality) (rank finality)

unfoldable pub accepts_revocation_source_kind : VerificationPolicy → RevocationSourceKind → Bool
unfolding is_non_live
accepts_revocation_source_kind policy source_kind =
    not policy.require_non_live_revocation_source || is_non_live source_kind
