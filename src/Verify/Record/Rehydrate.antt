-- ===== src/Verify/Record/Rehydrate.antt =====
-- record.rs: from a record of a whole grant back to the verified grant.
use trustgrant.Prelude.{
  ℕ, ◌&&◌, not, Option, some, [], Result, ok, ◌>>=◌, ◌>>◌, guard, ◌==◌, nat_eq, list_eq, option_eq,
  eq_option, eqb, length, is_some, traverse, traverse_option, option_map,
}
use trustgrant.Prelude.Text.{Text}
use trustgrant.Errors.Kinds.{
  TrustGrantError, invalid_supersedes_for_first_revision, self_supersession,
  unsupported_persisted_verified_grant_record_version,
}
use trustgrant.Errors.Limits.{ensure_collection_limit, max_audience_entries, max_resource_types}
use trustgrant.Domain.Ids.{Uuid, parse_prefixed_uuid}
use trustgrant.Domain.Names.{resource_type_name_eq, new_key_id}
use trustgrant.Domain.Authority.{new_authority_id}
use trustgrant.Domain.Lineage.{new_grant_revision}
use trustgrant.Domain.Ownership.{OwnershipVerificationRecord}
use trustgrant.Discovery.{
  ResolvedSignerBinding, new_authority_key_record, new_signature_profile,
  new_delegated_principal_ref,
}
use trustgrant.Document.Model.{new_validated_time_window}
use trustgrant.Verify.Grant.{NormalizedTrustGrantDocument, VerificationMetadata, VerifiedTrustGrant}
use trustgrant.Verify.Consistency.{canonical_profile_for_rehydrate}
use trustgrant.Verify.Raw.{ensure_verified_grant_consistent}
use trustgrant.Verify.Record.Model.{
  NormalizedTrustGrantDocumentRecord, ResolvedSignerBindingRecord,
  OwnershipVerificationRecordRecord, VerificationMetadataRecord, VerifiedTrustGrantRecord,
}
use trustgrant.Verify.Record.Read.{
  try_to_validated_scope, try_to_validated_principal, policy_from, tip_or_invalid,
  try_to_validated_audience_entry, collect_persisted_types,
}

abbrev pub verified_trustgrant_record_version : ℕ
verified_trustgrant_record_version = 1

module _ (to_lowercase : Text → Text) (parse_str : Text → Option Uuid) where
  unfoldable pub try_to_normalized_document :
      NormalizedTrustGrantDocumentRecord → Result TrustGrantError NormalizedTrustGrantDocument
  unfolding ensure_collection_limit parse_prefixed_uuid new_grant_revision traverse_option
      new_authority_id new_key_id try_to_validated_scope traverse try_to_validated_audience_entry
      collect_persisted_types new_validated_time_window try_to_validated_principal eq_option
  try_to_normalized_document r = do
    ensure_collection_limit "verified_record.default_audience_scope"
        (length r.default_audience_scope) max_audience_entries
    ensure_collection_limit "verified_record.resource_scope" (length r.resource_scope)
        max_resource_types
    trustgrant_id ← parse_prefixed_uuid parse_str r.trustgrant_id "tg"
    grant_series_id ← parse_prefixed_uuid parse_str r.grant_series_id "tgs"
    revision ← new_grant_revision r.revision
    supersedes ← traverse_option (λ s. parse_prefixed_uuid parse_str s "tg") r.supersedes
    guard (not (eqb revision.get 1 && is_some supersedes)) invalid_supersedes_for_first_revision
    guard (not (supersedes == some trustgrant_id)) self_supersession
    supersession_policy ← policy_from r.supersession_policy
    issuer_authority ← new_authority_id to_lowercase r.issuer_authority
    origin_authority ← new_authority_id to_lowercase r.origin_authority
    active_owning_authority ← new_authority_id to_lowercase r.active_owning_authority
    key_id ← new_key_id r.key_id
    target_scope ← try_to_validated_scope "target_scope" r.target_scope
    default_audience_scope ←
        traverse (try_to_validated_audience_entry to_lowercase "default_audience_scope")
          r.default_audience_scope
    resource_scope ← collect_persisted_types to_lowercase [] r.resource_scope
    global_time_window ←
        traverse_option (λ w. new_validated_time_window w.not_before w.not_after)
          r.global_time_window
    issuer_principal ← traverse_option try_to_validated_principal r.issuer_principal
    ok (record {
      lineage = record {
        trustgrant_id = trustgrant_id;
        grant_series_id = grant_series_id;
        revision = revision;
        supersedes = supersedes;
        supersession_policy = supersession_policy;
      };
      issuer_authority = issuer_authority;
      ownership_authority_state = record {
        origin_authority = origin_authority;
        active_owning_authority = active_owning_authority;
      };
      key_id = key_id;
      target_scope = target_scope;
      capabilities = record { recognize = r.capabilities.recognize; mint = r.capabilities.mint };
      default_audience_scope = default_audience_scope;
      resource_scope = resource_scope;
      global_time_window = global_time_window;
      revocation =
          option_map
            (λ p. record {
              revocable = p.revocable;
              revocation_endpoint = p.revocation_endpoint;
              post_revocation_effect = p.post_revocation_effect;
            })
            r.revocation;
      issued_at = r.issued_at;
      issuer_principal = issuer_principal;
      interoperability_profile = r.interoperability_profile;
    })

  unfoldable pub try_into_binding :
      ResolvedSignerBindingRecord → Result TrustGrantError ResolvedSignerBinding
  unfolding new_authority_id new_authority_key_record new_signature_profile traverse_option
      new_delegated_principal_ref
  try_into_binding r = do
    issuer_authority ← new_authority_id to_lowercase r.issuer_authority
    key_record ←
        new_authority_key_record r.key_record.key_id r.key_record.algorithm r.key_record.public_key
          r.key_record.not_before r.key_record.not_after
    signature_profile ←
        new_signature_profile r.signature_profile.format r.signature_profile.canonicalization
    delegated_principal ←
        traverse_option (λ p. new_delegated_principal_ref p.kind p.id) r.delegated_principal
    ok (record {
      issuer_authority = issuer_authority;
      key_record = key_record;
      signature_profile = signature_profile;
      delegated_principal = delegated_principal;
    })

  unfoldable pub try_into_ownership :
      OwnershipVerificationRecordRecord → Result TrustGrantError OwnershipVerificationRecord
  unfolding new_authority_id traverse_option parse_prefixed_uuid
  try_into_ownership r = do
    origin_authority ← new_authority_id to_lowercase r.origin_authority
    active_owning_authority ← new_authority_id to_lowercase r.active_owning_authority
    transition_chain_tip ←
        tip_or_invalid
          (traverse_option (λ s. parse_prefixed_uuid parse_str s "tgt") r.transition_chain_tip)
    ok (record {
      origin_authority = origin_authority;
      active_owning_authority = active_owning_authority;
      checked_at = r.checked_at;
      proof_kind = r.proof_kind;
      transition_chain_tip = transition_chain_tip;
    })

  unfoldable pub try_into_metadata :
      VerificationMetadataRecord → Result TrustGrantError VerificationMetadata
  unfolding try_into_binding try_into_ownership
  try_into_metadata r = do
    signer_binding ← try_into_binding r.signer_binding
    ownership ← try_into_ownership r.ownership
    ok (record {
      verified_at = r.verified_at;
      posture = r.posture;
      signer_binding = signer_binding;
      ownership = ownership;
      revocation = r.revocation;
    })

  module _ (uuid_text : Uuid → Text) where
    unfoldable pub try_to_verified_grant :
        VerifiedTrustGrantRecord → Result TrustGrantError VerifiedTrustGrant
    unfolding try_to_normalized_document try_into_metadata ensure_verified_grant_consistent
        canonical_profile_for_rehydrate
    try_to_verified_grant r = do
      guard (eqb r.record_version verified_trustgrant_record_version)
          (unsupported_persisted_verified_grant_record_version r.record_version)
      document ← try_to_normalized_document r.document
      metadata ← try_into_metadata r.metadata
      let grant : VerifiedTrustGrant = record { document = document; metadata = metadata }
      ensure_verified_grant_consistent uuid_text to_lowercase parse_str grant
          (canonical_profile_for_rehydrate metadata.posture)
      ok grant
