-- ===== src/Domain/Lineage.antt =====
-- crates/trustgrant-domain/src/lineage.rs: revisions of a grant within its series.
use trustgrant.Prelude.{ℕ, Option, Result, ok, err, if◌then◌else◌, eqb}
use trustgrant.Errors.Kinds.{TrustGrantError, zero_revision}
use trustgrant.Domain.Ids.{TrustGrantId, GrantSeriesId}

-- `new` admits no revision zero.
pub record GrantRevision : Type 0 where
  pub get : ℕ

unfoldable pub new_grant_revision : ℕ → Result TrustGrantError GrantRevision
new_grant_revision value = if eqb value 0 then err zero_revision else ok (record { get = value })

pub data SupersessionPolicy : Type 0 where
  coexist supersede_previous explicit_revocation_required : SupersessionPolicy

pub record GrantLineage : Type 0 where
  pub trustgrant_id : TrustGrantId
  pub grant_series_id : GrantSeriesId
  pub revision : GrantRevision
  pub supersedes : Option TrustGrantId
  pub supersession_policy : SupersessionPolicy
