-- ===== src/Discovery/Read.antt =====
-- source_document.rs: from the raw documents that publish keys to the validated ones.
use mathlib.Core.List.{map}
use trustgrant.Prelude.{
  true, false, not, Option, none, some, List, [], ◌∷◌, Result, ok, ◌>>=◌, ◌>>◌, guard, ok_or, ◌==◌,
  eq_list, length, is_empty, any, unwrap_or_default, traverse_option,
}
use trustgrant.Prelude.Text.{Text, byte_len}
use trustgrant.Errors.Kinds.{
  TrustGrantError, duplicate_key_id, invalid_discovery_document,
  invalid_delegated_principal_document,
}
use trustgrant.Errors.Limits.{
  ensure_collection_limit, ensure_json_size, max_discovery_keys, max_revocation_endpoints,
  max_discovery_json_bytes, max_delegated_principal_json_bytes,
}
use trustgrant.Domain.Names.{KeyId, key_id_eq}
use trustgrant.Domain.Authority.{new_authority_id}
use trustgrant.Discovery.{
  AuthorityKeyRecord, new_authority_key_record, new_signature_profile, new_delegated_principal_ref,
}
use trustgrant.Discovery.Source.{
  RawDiscoveryKeyRecord, RawDelegatedKeyRecord, RawKeyRecordLike, RawAuthorityDiscoveryDocument,
  RawDelegatedPrincipalKeyDocument, RawDelegation, AuthorityDiscoveryDocument,
  DelegatedPrincipalKeyDocument, DiscoveryDelegation, new_discovery_revocation_policy,
}

abbrev pub from_discovery_key : RawDiscoveryKeyRecord → RawKeyRecordLike
from_discovery_key value = record {
  key_id = value.key_id;
  algorithm = value.algorithm;
  public_key = value.public_key;
  not_before = value.not_before;
  not_after = value.not_after;
}

abbrev pub from_delegated_key : RawDelegatedKeyRecord → RawKeyRecordLike
from_delegated_key value = record {
  key_id = value.key_id;
  algorithm = value.algorithm;
  public_key = value.public_key;
  not_before = value.not_before;
  not_after = value.not_after;
}

-- The loop of `collect_unique_key_records`: `seen_key_ids` are those of the keys so far.
unfoldable pub collect_unique_from :
    List KeyId → List RawKeyRecordLike → Result TrustGrantError (List AuthorityKeyRecord)
unfolding new_authority_key_record any eq_list
collect_unique_from seen_key_ids [] = ok []
collect_unique_from seen_key_ids (raw ∷ raws) = do
  key ←
      new_authority_key_record raw.key_id raw.algorithm raw.public_key raw.not_before raw.not_after
  guard (not (any (λ id. id == key.key_id) seen_key_ids)) duplicate_key_id
  keys ← collect_unique_from (key.key_id ∷ seen_key_ids) raws
  ok (key ∷ keys)

unfoldable pub collect_unique_key_records :
    List RawKeyRecordLike → Result TrustGrantError (List AuthorityKeyRecord)
unfolding collect_unique_from
collect_unique_key_records raws = collect_unique_from [] raws

abbrev pub read_delegation :
    Option RawDelegation → Result TrustGrantError (Option DiscoveryDelegation)
read_delegation none = ok none
read_delegation (some delegation) = do
  guard delegation.principals_supported invalid_discovery_document
  ok (some (record { principal_key_endpoint = delegation.principal_key_endpoint }))

-- `filter(|record| !record.revoked)`
unfoldable pub unrevoked : List RawDelegatedKeyRecord → List RawDelegatedKeyRecord
unrevoked [] = []
unrevoked (raw ∷ raws) = elim raw.revoked [ true ↦ unrevoked raws | false ↦ raw ∷ unrevoked raws ]

module _ (to_lowercase : Text → Text) where
  unfoldable pub discovery_try_from :
      RawAuthorityDiscoveryDocument → Result TrustGrantError AuthorityDiscoveryDocument
  unfolding ensure_collection_limit new_authority_id collect_unique_key_records
      new_signature_profile traverse_option new_discovery_revocation_policy
  discovery_try_from raw = do
    ensure_collection_limit "discovery.keys" (length raw.keys) max_discovery_keys
    guard (not (is_empty raw.keys)) invalid_discovery_document
    authority_id ← new_authority_id to_lowercase raw.authority_id
    keys ← collect_unique_key_records (map from_discovery_key raw.keys)
    signature_profile ←
        new_signature_profile raw.signature_profile.format raw.signature_profile.canonicalization
    revocation_policy ←
        traverse_option
          (λ p.
            new_discovery_revocation_policy p.status_endpoint p.non_revoked_ttl_seconds
              p.max_stale_seconds)
          raw.revocation_policy
    let revocation_endpoints = unwrap_or_default raw.revocation_endpoints
    ensure_collection_limit "discovery.revocation_endpoints" (length revocation_endpoints)
        max_revocation_endpoints
    delegation ← read_delegation raw.delegation
    ok (record {
      authority_id = authority_id;
      keys = keys;
      signature_profile = signature_profile;
      revocation_policy = revocation_policy;
      revocation_endpoints = revocation_endpoints;
      issued_at = raw.issued_at;
      delegation = delegation;
    })

  unfoldable pub delegated_try_from :
      RawDelegatedPrincipalKeyDocument → Result TrustGrantError DelegatedPrincipalKeyDocument
  unfolding ensure_collection_limit new_authority_id new_delegated_principal_ref
      collect_unique_key_records unrevoked
  delegated_try_from raw = do
    ensure_collection_limit "delegated_principal.keys" (length raw.keys) max_discovery_keys
    authority_id ← new_authority_id to_lowercase raw.authority_id
    principal ← new_delegated_principal_ref raw.principal.kind raw.principal.id
    keys ← collect_unique_key_records (map from_delegated_key (unrevoked raw.keys))
    ok (record { authority_id = authority_id; principal = principal; keys = keys })

  unfoldable pub parse_authority_discovery_document :
      (Text → Option RawAuthorityDiscoveryDocument)
      → Text
      → Result TrustGrantError AuthorityDiscoveryDocument
  unfolding ensure_json_size byte_len discovery_try_from
  parse_authority_discovery_document from_str json = do
    ensure_json_size "authority_discovery" (byte_len json) max_discovery_json_bytes
    raw ← ok_or (from_str json) invalid_discovery_document
    discovery_try_from raw

  unfoldable pub parse_delegated_principal_key_document :
      (Text → Option RawDelegatedPrincipalKeyDocument)
      → Text
      → Result TrustGrantError DelegatedPrincipalKeyDocument
  unfolding ensure_json_size byte_len delegated_try_from
  parse_delegated_principal_key_document from_str json = do
    ensure_json_size "delegated_principal_key" (byte_len json) max_delegated_principal_json_bytes
    raw ← ok_or (from_str json) invalid_delegated_principal_document
    delegated_try_from raw
