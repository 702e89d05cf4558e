-- ===== src/Discovery/Source.antt =====
-- crates/trustgrant-discovery/src/source_document.rs: the documents that publish keys. The parameters
-- are `str::to_lowercase` and serde's reading of JSON.
use trustgrant.Prelude.{
  ℕ, Bool, ◌&&◌, ◌||◌, not, Option, none, some, List, Result, ok, ◌>>=◌, ◌>>◌, guard, ok_or, ◌==◌,
  eq_list, eqb, find,
}
use trustgrant.Prelude.Text.{Text}
use trustgrant.Errors.Kinds.{
  TrustGrantError, invalid_revocation_policy, discovery_authority_mismatch, missing_signing_key,
  delegated_discovery_authority_mismatch, delegated_principal_mismatch,
}
use trustgrant.Domain.Names.{KeyId, key_id_eq, principal_kind_eq, principal_id_eq}
use trustgrant.Domain.Authority.{AuthorityId, authority_id_eq, same_authority}
use trustgrant.Domain.Ownership.{Instant}
use trustgrant.Document.Model.{ValidatedPrincipal}
use trustgrant.Discovery.{
  AuthorityKeyRecord, SignatureProfile, DelegatedPrincipalRef, ResolvedSignerBinding,
}

pub record DiscoveryRevocationPolicy : Type 0 where
  pub status_endpoint : Text
  pub non_revoked_ttl_seconds : ℕ
  pub max_stale_seconds : ℕ

unfoldable pub new_discovery_revocation_policy :
    Text → ℕ → ℕ → Result TrustGrantError DiscoveryRevocationPolicy
new_discovery_revocation_policy status_endpoint non_revoked_ttl_seconds max_stale_seconds = do
  guard (not (eqb non_revoked_ttl_seconds 0 || eqb max_stale_seconds 0)) invalid_revocation_policy
  ok (record {
    status_endpoint = status_endpoint;
    non_revoked_ttl_seconds = non_revoked_ttl_seconds;
    max_stale_seconds = max_stale_seconds;
  })

pub record DiscoveryDelegation : Type 0 where
  pub principal_key_endpoint : Text

pub record AuthorityDiscoveryDocument : Type 0 where
  pub authority_id : AuthorityId
  pub keys : List AuthorityKeyRecord
  pub signature_profile : SignatureProfile
  pub revocation_policy : Option DiscoveryRevocationPolicy
  pub revocation_endpoints : List Text
  pub issued_at : Instant
  pub delegation : Option DiscoveryDelegation

-- `keys.iter().find(|record| record.key_id() == key_id)`
unfoldable pub find_key : KeyId → List AuthorityKeyRecord → Option AuthorityKeyRecord
unfolding find eq_list
find_key key_id keys = find (λ r. r.key_id == key_id) keys

unfoldable pub resolve_root_signer_binding :
    AuthorityDiscoveryDocument → AuthorityId → KeyId → Result TrustGrantError ResolvedSignerBinding
unfolding same_authority find_key
resolve_root_signer_binding document issuer_authority key_id = do
  guard (document.authority_id == issuer_authority) discovery_authority_mismatch
  key_record ← ok_or (find_key key_id document.keys) missing_signing_key
  ok (record {
    issuer_authority = document.authority_id;
    key_record = key_record;
    signature_profile = document.signature_profile;
    delegated_principal = none;
  })

pub record DelegatedPrincipalKeyDocument : Type 0 where
  pub authority_id : AuthorityId
  pub principal : DelegatedPrincipalRef
  pub keys : List AuthorityKeyRecord

unfoldable pub resolve_delegated_signer_binding :
    DelegatedPrincipalKeyDocument
    → AuthorityId
    → ValidatedPrincipal
    → KeyId
    → SignatureProfile
    → Result TrustGrantError ResolvedSignerBinding
unfolding same_authority eq_list find_key
resolve_delegated_signer_binding document issuer_authority issuer_principal key_id profile = do
  guard (document.authority_id == issuer_authority) delegated_discovery_authority_mismatch
  guard
      (document.principal.kind == issuer_principal.kind
        && document.principal.id == issuer_principal.id)
      delegated_principal_mismatch
  key_record ← ok_or (find_key key_id document.keys) missing_signing_key
  ok (record {
    issuer_authority = document.authority_id;
    key_record = key_record;
    signature_profile = profile;
    delegated_principal = some document.principal;
  })

pub record RawSignatureProfile : Type 0 where
  pub format : Text
  pub canonicalization : Text

pub record RawDiscoveryKeyRecord : Type 0 where
  pub key_id : Text
  pub algorithm : Text
  pub public_key : Text
  pub not_before : Instant
  pub not_after : Instant

pub record RawRevocationPolicy : Type 0 where
  pub status_endpoint : Text
  pub non_revoked_ttl_seconds : ℕ
  pub max_stale_seconds : ℕ

pub record RawDelegation : Type 0 where
  pub principals_supported : Bool
  pub principal_key_endpoint : Text

pub record RawAuthorityDiscoveryDocument : Type 0 where
  pub authority_id : Text
  pub keys : List RawDiscoveryKeyRecord
  pub signature_profile : RawSignatureProfile
  pub revocation_policy : Option RawRevocationPolicy
  pub revocation_endpoints : Option (List Text)
  pub issued_at : Instant
  pub delegation : Option RawDelegation

pub record RawDelegatedPrincipal : Type 0 where
  pub kind : Text
  pub id : Text

pub record RawDelegatedKeyRecord : Type 0 where
  pub key_id : Text
  pub algorithm : Text
  pub public_key : Text
  pub not_before : Instant
  pub not_after : Instant
  pub revoked : Bool

pub record RawDelegatedPrincipalKeyDocument : Type 0 where
  pub authority_id : Text
  pub principal : RawDelegatedPrincipal
  pub keys : List RawDelegatedKeyRecord

pub record RawKeyRecordLike : Type 0 where
  pub key_id : Text
  pub algorithm : Text
  pub public_key : Text
  pub not_before : Instant
  pub not_after : Instant
