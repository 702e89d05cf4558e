-- ===== src/Verify/Record/Write.antt =====
-- record.rs: the record of a verified grant (`From`).
use trustgrant.Prelude.{option_map}
use mathlib.Core.List.{map}
use trustgrant.Prelude.Text.{Text}
use trustgrant.Domain.Ids.{Uuid, display_id}
use trustgrant.Domain.Lineage
use trustgrant.Domain.Ownership.{OwnershipVerificationRecord}
use trustgrant.Domain.Expression.{display}
use trustgrant.Discovery.{ResolvedSignerBinding}
use trustgrant.Document.Model.{
  ValidatedScope, ValidatedSelector, ValidatedAudienceEntry, ValidatedResourceType,
  ValidatedOperationScope, ValidatedPrincipal,
}
use trustgrant.Verify.Grant.{NormalizedTrustGrantDocument, VerificationMetadata, VerifiedTrustGrant}
use trustgrant.Verify.Record.Model.{
  SupersessionPolicyRecord, SelectorRecord, ScopeRecord, AudienceEntryRecord, OperationScopeRecord,
  ResourceTypeRecord, PrincipalRecord, NormalizedTrustGrantDocumentRecord,
  ResolvedSignerBindingRecord, OwnershipVerificationRecordRecord, VerificationMetadataRecord,
  VerifiedTrustGrantRecord,
}
use trustgrant.Verify.Record.Rehydrate.{verified_trustgrant_record_version}

abbrev pub policy_record : Lineage.SupersessionPolicy → SupersessionPolicyRecord
policy_record Lineage.SupersessionPolicy.coexist = SupersessionPolicyRecord.coexist
policy_record Lineage.SupersessionPolicy.supersede_previous =
    SupersessionPolicyRecord.supersede_previous
policy_record Lineage.SupersessionPolicy.explicit_revocation_required =
    SupersessionPolicyRecord.explicit_revocation_required

unfoldable pub selector_record : ValidatedSelector → SelectorRecord
unfolding display
selector_record s = record {
  kind = s.kind.value;
  all = s.all;
  values = s.values;
  expressions = map display s.expressions;
}

unfoldable pub scope_record : ValidatedScope → ScopeRecord
unfolding selector_record
scope_record s = record {
  all = s.all;
  allow = map selector_record s.allow;
  deny = map selector_record s.deny;
}

unfoldable pub audience_entry_record : ValidatedAudienceEntry → AudienceEntryRecord
unfolding scope_record
audience_entry_record entry = record {
  authority_id = entry.authority_id.value;
  scope = scope_record entry.scope;
  principal_scope = option_map scope_record entry.principal_scope;
}

unfoldable pub operation_scope_record : ValidatedOperationScope → OperationScopeRecord
operation_scope_record o = record {
  allow = map (λ n. n.as_str) o.allow;
  deny = map (λ n. n.as_str) o.deny;
}

unfoldable pub resource_type_record : ValidatedResourceType → ResourceTypeRecord
unfolding selector_record audience_entry_record operation_scope_record
resource_type_record t = record {
  all = t.all;
  allow = map selector_record t.allow;
  deny = map selector_record t.deny;
  capabilities = record { recognize = t.capabilities.recognize; mint = t.capabilities.mint };
  constraints = record {
    minting = record {
      max_total = t.constraints.minting.max_total;
      max_per_user = t.constraints.minting.max_per_user;
    };
    audience_scope = map audience_entry_record t.constraints.audience_scope;
  };
  operations = option_map operation_scope_record t.operations;
}

unfoldable pub principal_record : ValidatedPrincipal → PrincipalRecord
principal_record p = record { kind = p.kind.as_str; id = p.id.as_str }

unfoldable pub binding_record : ResolvedSignerBinding → ResolvedSignerBindingRecord
binding_record b = record {
  issuer_authority = b.issuer_authority.value;
  key_record = record {
    key_id = b.key_record.key_id.as_str;
    algorithm = b.key_record.algorithm.as_str;
    public_key = b.key_record.public_key.as_str;
    not_before = b.key_record.not_before;
    not_after = b.key_record.not_after;
  };
  signature_profile = record {
    format = b.signature_profile.format.as_str;
    canonicalization = b.signature_profile.canonicalization.as_str;
  };
  delegated_principal =
      option_map (λ p. record { kind = p.kind.as_str; id = p.id.as_str }) b.delegated_principal;
}

module _ (uuid_text : Uuid → Text) where
  unfoldable pub document_record : NormalizedTrustGrantDocument → NormalizedTrustGrantDocumentRecord
  unfolding scope_record audience_entry_record resource_type_record principal_record
  document_record d = record {
    trustgrant_id = display_id uuid_text "tg" d.lineage.trustgrant_id;
    grant_series_id = display_id uuid_text "tgs" d.lineage.grant_series_id;
    revision = d.lineage.revision.get;
    supersedes = option_map (display_id uuid_text "tg") d.lineage.supersedes;
    supersession_policy = policy_record d.lineage.supersession_policy;
    issuer_authority = d.issuer_authority.value;
    origin_authority = d.ownership_authority_state.origin_authority.value;
    active_owning_authority = d.ownership_authority_state.active_owning_authority.value;
    key_id = d.key_id.as_str;
    target_scope = scope_record d.target_scope;
    capabilities = record { recognize = d.capabilities.recognize; mint = d.capabilities.mint };
    default_audience_scope = map audience_entry_record d.default_audience_scope;
    resource_scope = map (λ entry. (entry.0.as_str, resource_type_record entry.1)) d.resource_scope;
    global_time_window =
        option_map (λ w. record { not_before = w.not_before; not_after = w.not_after })
          d.global_time_window;
    revocation =
        option_map
          (λ r. record {
            revocable = r.revocable;
            revocation_endpoint = r.revocation_endpoint;
            post_revocation_effect = r.post_revocation_effect;
          })
          d.revocation;
    issued_at = d.issued_at;
    issuer_principal = option_map principal_record d.issuer_principal;
    interoperability_profile = d.interoperability_profile;
  }

  unfoldable pub ownership_record : OwnershipVerificationRecord → OwnershipVerificationRecordRecord
  ownership_record o = record {
    origin_authority = o.origin_authority.value;
    active_owning_authority = o.active_owning_authority.value;
    checked_at = o.checked_at;
    proof_kind = o.proof_kind;
    transition_chain_tip = option_map (display_id uuid_text "tgt") o.transition_chain_tip;
  }

  unfoldable pub metadata_record : VerificationMetadata → VerificationMetadataRecord
  unfolding binding_record ownership_record
  metadata_record m = record {
    verified_at = m.verified_at;
    posture = m.posture;
    signer_binding = binding_record m.signer_binding;
    ownership = ownership_record m.ownership;
    revocation = m.revocation;
  }

  unfoldable pub grant_record : VerifiedTrustGrant → VerifiedTrustGrantRecord
  unfolding document_record metadata_record
  grant_record g = record {
    record_version = verified_trustgrant_record_version;
    document = document_record g.document;
    metadata = metadata_record g.metadata;
  }
