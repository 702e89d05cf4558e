-- ===== src/Verify/Record/Model.antt =====
-- record.rs: the records that are persisted.
use trustgrant.Prelude.{ℕ, Bool, Option, List}
use trustgrant.Prelude.Text.{Text}
use trustgrant.Domain.Ownership.{Instant, OwnershipProofKind}
use trustgrant.Revocation.{VerifiedRevocationState}
use trustgrant.Document.Model.{PostRevocationEffect, InteroperabilityProfile}
use trustgrant.Ports.{VerificationPosture}

pub data SupersessionPolicyRecord : Type 0 where
  coexist supersede_previous explicit_revocation_required : SupersessionPolicyRecord

pub record SelectorRecord : Type 0 where
  pub kind : Text
  pub all : Bool
  pub values : List Text
  pub expressions : List Text

pub record ScopeRecord : Type 0 where
  pub all : Bool
  pub allow : List SelectorRecord
  pub deny : List SelectorRecord

pub record CapabilitiesRecord : Type 0 where
  pub recognize : Bool
  pub mint : Bool

pub record AudienceEntryRecord : Type 0 where
  pub authority_id : Text
  pub scope : ScopeRecord
  pub principal_scope : Option ScopeRecord

pub record TypeCapabilitiesRecord : Type 0 where
  pub recognize : Option Bool
  pub mint : Option Bool

pub record MintingConstraintsRecord : Type 0 where
  pub max_total : Option ℕ
  pub max_per_user : Option ℕ

pub record TypeConstraintsRecord : Type 0 where
  pub minting : MintingConstraintsRecord
  pub audience_scope : List AudienceEntryRecord

pub record OperationScopeRecord : Type 0 where
  pub allow : List Text
  pub deny : List Text

pub record ResourceTypeRecord : Type 0 where
  pub all : Bool
  pub allow : List SelectorRecord
  pub deny : List SelectorRecord
  pub capabilities : TypeCapabilitiesRecord
  pub constraints : TypeConstraintsRecord
  pub operations : Option OperationScopeRecord

pub record TimeWindowRecord : Type 0 where
  pub not_before : Instant
  pub not_after : Instant

pub record RevocationPolicyRecord : Type 0 where
  pub revocable : Bool
  pub revocation_endpoint : Text
  pub post_revocation_effect : PostRevocationEffect

pub record PrincipalRecord : Type 0 where
  pub kind : Text
  pub id : Text

-- The types in the order of their keys.
pub record NormalizedTrustGrantDocumentRecord : Type 0 where
  pub trustgrant_id : Text
  pub grant_series_id : Text
  pub revision : ℕ
  pub supersedes : Option Text
  pub supersession_policy : SupersessionPolicyRecord
  pub issuer_authority : Text
  pub origin_authority : Text
  pub active_owning_authority : Text
  pub key_id : Text
  pub target_scope : ScopeRecord
  pub capabilities : CapabilitiesRecord
  pub default_audience_scope : List AudienceEntryRecord
  pub resource_scope : List (Text × ResourceTypeRecord)
  pub global_time_window : Option TimeWindowRecord
  pub revocation : Option RevocationPolicyRecord
  pub issued_at : Instant
  pub issuer_principal : Option PrincipalRecord
  pub interoperability_profile : Option InteroperabilityProfile

pub record AuthorityKeyRecordRecord : Type 0 where
  pub key_id : Text
  pub algorithm : Text
  pub public_key : Text
  pub not_before : Instant
  pub not_after : Instant

pub record SignatureProfileRecord : Type 0 where
  pub format : Text
  pub canonicalization : Text

pub record ResolvedSignerBindingRecord : Type 0 where
  pub issuer_authority : Text
  pub key_record : AuthorityKeyRecordRecord
  pub signature_profile : SignatureProfileRecord
  pub delegated_principal : Option PrincipalRecord

pub record OwnershipVerificationRecordRecord : Type 0 where
  pub origin_authority : Text
  pub active_owning_authority : Text
  pub checked_at : Instant
  pub proof_kind : OwnershipProofKind
  pub transition_chain_tip : Option Text

pub record VerificationMetadataRecord : Type 0 where
  pub verified_at : Instant
  pub posture : VerificationPosture
  pub signer_binding : ResolvedSignerBindingRecord
  pub ownership : OwnershipVerificationRecordRecord
  pub revocation : VerifiedRevocationState

pub record VerifiedTrustGrantRecord : Type 0 where
  pub record_version : ℕ
  pub document : NormalizedTrustGrantDocumentRecord
  pub metadata : VerificationMetadataRecord
