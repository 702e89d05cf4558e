-- ===== src/Verify/Raw.antt =====
-- crates/trustgrant-verify/src/verified_grant.rs: from a verified grant back to a raw document, and the
-- check of a grant against it (consistency.rs).
use trustgrant.Prelude.{Option, some, [], option_map, non_empty, Result, ok, err, ◌>>=◌, ◌>>◌}
use mathlib.Core.List.{map}
use trustgrant.Prelude.Text.{Text, codes}
use trustgrant.Errors.Kinds.{TrustGrantError, unsupported_v0_wire_supersession_policy}
use trustgrant.Domain.Ids.{Uuid, display_id}
use trustgrant.Domain.Lineage
use trustgrant.Domain.Expression.{display}
use trustgrant.Domain.Canonicalization.{CanonicalizationProfile, collect_keys}
use trustgrant.Document.Model.{
  ValidatedScope, ValidatedSelector, ValidatedAudienceEntry, ValidatedResourceType,
  ValidatedOperationScope, ValidatedPrincipal, block_all,
}
use trustgrant.Document.Raw.{
  RawScope, RawSelector, RawAudienceEntry, RawResourceType, RawOperationScope, RawPrincipal,
  RawSupersessionPolicy, RawTrustGrantDocument,
}
use trustgrant.Document.Validate.{try_from}
use trustgrant.Verify.Grant.{NormalizedTrustGrantDocument, VerifiedTrustGrant}
use trustgrant.Verify.Consistency.{
  ensure_metadata_matches_document, ensure_revocation_state_matches_document,
  ensure_revocation_state_is_acceptable,
}

unfoldable pub raw_selector : ValidatedSelector → RawSelector
unfolding display
raw_selector s = record {
  kind = s.kind.value;
  all = s.all;
  values = non_empty s.values;
  expressions = non_empty (map display s.expressions);
}

unfoldable pub raw_scope : ValidatedScope → RawScope
unfolding raw_selector
raw_scope s = record {
  all = s.all;
  allow = non_empty (map raw_selector s.allow);
  deny = non_empty (map raw_selector s.deny);
}

unfoldable pub raw_audience_entry : ValidatedAudienceEntry → RawAudienceEntry
unfolding raw_scope
raw_audience_entry entry = record {
  authority_id = entry.authority_id.value;
  scope = raw_scope entry.scope;
  principal_scope = option_map raw_scope entry.principal_scope;
}

abbrev pub raw_operation_scope : ValidatedOperationScope → RawOperationScope
raw_operation_scope o = record {
  allow = non_empty (map (λ n. n.as_str) o.allow);
  deny = non_empty (map (λ n. n.as_str) o.deny);
}

unfoldable pub raw_resource_type : ValidatedResourceType → RawResourceType
unfolding raw_selector raw_audience_entry
raw_resource_type t = record {
  all = t.all;
  allow = non_empty (map raw_selector t.allow);
  deny = non_empty (map raw_selector t.deny);
  capabilities = record { recognize = t.capabilities.recognize; mint = t.capabilities.mint };
  constraints = record {
    minting = record {
      max_total = t.constraints.minting.max_total;
      max_per_user = t.constraints.minting.max_per_user;
    };
    audience_scope = non_empty (map raw_audience_entry t.constraints.audience_scope);
  };
  operations = option_map raw_operation_scope t.operations;
}

unfoldable pub raw_principal : ValidatedPrincipal → RawPrincipal
raw_principal p = record { kind = p.kind.as_str; id = p.id.as_str }

-- The match on the policy.
abbrev pub wire_policy : Lineage.SupersessionPolicy → Result TrustGrantError RawSupersessionPolicy
wire_policy Lineage.SupersessionPolicy.coexist = ok RawSupersessionPolicy.coexist
wire_policy Lineage.SupersessionPolicy.supersede_previous =
    ok RawSupersessionPolicy.supersede_previous
wire_policy Lineage.SupersessionPolicy.explicit_revocation_required =
    err unsupported_v0_wire_supersession_policy

module _ (uuid_text : Uuid → Text) where
  unfoldable pub into_raw_document_for_consistency_check :
      NormalizedTrustGrantDocument → Result TrustGrantError RawTrustGrantDocument
  unfolding raw_scope raw_audience_entry raw_resource_type raw_principal collect_keys
  into_raw_document_for_consistency_check d = do
    supersession_policy ← wire_policy d.lineage.supersession_policy
    ok (record {
      trustgrant_id = display_id uuid_text "tg" d.lineage.trustgrant_id;
      version = 0;
      grant_series_id = display_id uuid_text "tgs" d.lineage.grant_series_id;
      revision = d.lineage.revision.get;
      supersedes = option_map (display_id uuid_text "tg") d.lineage.supersedes;
      supersession_policy = supersession_policy;
      issuer_authority = d.issuer_authority.value;
      origin_authority = d.ownership_authority_state.origin_authority.value;
      active_owning_authority = d.ownership_authority_state.active_owning_authority.value;
      key_id = d.key_id.as_str;
      target_scope = raw_scope d.target_scope;
      capabilities = record { recognize = d.capabilities.recognize; mint = d.capabilities.mint };
      default_audience_scope = non_empty (map raw_audience_entry d.default_audience_scope);
      resource_scope = record {
        types =
            collect_keys []
              (map (λ entry. (entry.0.as_str, raw_resource_type entry.1)) d.resource_scope);
      };
      global_constraints =
          option_map
            (λ w. record {
              time = some (record { not_before = w.not_before; not_after = w.not_after });
            })
            d.global_time_window;
      revocation =
          option_map
            (λ r. record {
              revocable = r.revocable;
              revocation_endpoint = r.revocation_endpoint;
              post_revocation_effect = block_all;
            })
            d.revocation;
      issued_at = d.issued_at;
      signature = codes "rehydrated-signature";
      issuer_principal = option_map raw_principal d.issuer_principal;
      interoperability_profile = d.interoperability_profile;
    })

  module _ (to_lowercase : Text → Text) (parse_str : Text → Option Uuid) where
    unfoldable pub ensure_verified_grant_consistent :
        VerifiedTrustGrant → CanonicalizationProfile → Result TrustGrantError (Unit {0})
    unfolding into_raw_document_for_consistency_check try_from ensure_metadata_matches_document
        ensure_revocation_state_matches_document ensure_revocation_state_is_acceptable
    ensure_verified_grant_consistent grant profile = do
      raw ← into_raw_document_for_consistency_check grant.document
      document ← try_from to_lowercase parse_str raw
      ensure_metadata_matches_document grant.metadata document profile
      ensure_revocation_state_matches_document grant.metadata document
      ensure_revocation_state_is_acceptable grant.metadata
