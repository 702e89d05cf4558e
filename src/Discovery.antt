-- ===== src/Discovery.antt =====
-- crates/trustgrant-discovery/src/document.rs: key material and the signer that it resolves to.
pub mod Source
pub mod Read
pub mod Active
pub mod Published
pub mod Equality
use trustgrant.Prelude.{
  String, ℕ, Bool, ◌&&◌, Option, Result, ok, err, ◌>>=◌, ◌>>◌, guard, find, leb, is_empty,
  if◌then◌else◌,
}
use trustgrant.Prelude.Text.{Text, trim, is_control, is_whitespace}
use trustgrant.Errors.Kinds.{TrustGrantError, empty_string_field, invalid_key_validity_window}
use trustgrant.Errors.Limits.{
  ensure_string_limit, max_algorithm_name_bytes, max_public_key_material_bytes,
  max_signature_profile_format_bytes, max_canonicalization_name_bytes,
}
use trustgrant.Domain.Names.{
  KeyId, PrincipalKind, PrincipalId, new_key_id, new_principal_kind, new_principal_id,
  check_characters,
}
use trustgrant.Domain.Authority.{AuthorityId}
use trustgrant.Domain.Ownership.{Instant}

unfoldable pub normalize_non_empty : String → Text → ℕ → Result TrustGrantError Text
unfolding trim ensure_string_limit
normalize_non_empty field_name value max_bytes = do
  let trimmed = trim value
  if is_empty trimmed
      then err (empty_string_field field_name)
      else do ensure_string_limit field_name trimmed max_bytes; ok trimmed

unfoldable pub normalize_non_empty_token : String → Text → ℕ → Result TrustGrantError Text
unfolding normalize_non_empty find is_control is_whitespace
normalize_non_empty_token field_name value max_bytes = do
  trimmed ← normalize_non_empty field_name value max_bytes
  check_characters field_name trimmed

pub record AlgorithmName : Type 0 where
  pub as_str : Text

unfoldable pub new_algorithm_name : Text → Result TrustGrantError AlgorithmName
unfolding normalize_non_empty_token
new_algorithm_name value = do
  token ← normalize_non_empty_token "algorithm" value max_algorithm_name_bytes
  ok (record { as_str = token })

pub record PublicKeyMaterial : Type 0 where
  pub as_str : Text

unfoldable pub new_public_key_material : Text → Result TrustGrantError PublicKeyMaterial
unfolding normalize_non_empty
new_public_key_material value = do
  material ← normalize_non_empty "public_key" value max_public_key_material_bytes
  ok (record { as_str = material })

pub record SignatureFormat : Type 0 where
  pub as_str : Text

unfoldable pub new_signature_format : Text → Result TrustGrantError SignatureFormat
unfolding normalize_non_empty_token
new_signature_format value = do
  token ←
      normalize_non_empty_token "signature_profile.format" value max_signature_profile_format_bytes
  ok (record { as_str = token })

pub record CanonicalizationName : Type 0 where
  pub as_str : Text

unfoldable pub new_canonicalization_name : Text → Result TrustGrantError CanonicalizationName
unfolding normalize_non_empty_token
new_canonicalization_name value = do
  token ←
      normalize_non_empty_token "signature_profile.canonicalization" value
        max_canonicalization_name_bytes
  ok (record { as_str = token })

pub record SignatureProfile : Type 0 where
  pub format : SignatureFormat
  pub canonicalization : CanonicalizationName

unfoldable pub new_signature_profile : Text → Text → Result TrustGrantError SignatureProfile
unfolding new_signature_format new_canonicalization_name
new_signature_profile format canonicalization = do
  format' ← new_signature_format format
  canonicalization' ← new_canonicalization_name canonicalization
  ok (record { format = format'; canonicalization = canonicalization' })

pub record AuthorityKeyRecord : Type 0 where
  pub key_id : KeyId
  pub algorithm : AlgorithmName
  pub public_key : PublicKeyMaterial
  pub not_before : Instant
  pub not_after : Instant

unfoldable pub new_authority_key_record :
    Text → Text → Text → Instant → Instant → Result TrustGrantError AuthorityKeyRecord
unfolding new_key_id new_algorithm_name new_public_key_material
new_authority_key_record key_id algorithm public_key not_before not_after = do
  guard (leb not_before not_after) invalid_key_validity_window
  key_id' ← new_key_id key_id
  algorithm' ← new_algorithm_name algorithm
  public_key' ← new_public_key_material public_key
  ok (record {
    key_id = key_id';
    algorithm = algorithm';
    public_key = public_key';
    not_before = not_before;
    not_after = not_after;
  })

unfoldable pub is_active_at : AuthorityKeyRecord → Instant → Bool
is_active_at r timestamp = leb r.not_before timestamp && leb timestamp r.not_after

pub record DelegatedPrincipalRef : Type 0 where
  pub kind : PrincipalKind
  pub id : PrincipalId

unfoldable pub new_delegated_principal_ref :
    Text → Text → Result TrustGrantError DelegatedPrincipalRef
unfolding new_principal_kind new_principal_id
new_delegated_principal_ref kind id = do
  kind' ← new_principal_kind kind
  id' ← new_principal_id id
  ok (record { kind = kind'; id = id' })

pub record ResolvedSignerBinding : Type 0 where
  pub issuer_authority : AuthorityId
  pub key_record : AuthorityKeyRecord
  pub signature_profile : SignatureProfile
  pub delegated_principal : Option DelegatedPrincipalRef
