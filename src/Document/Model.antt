-- ===== src/Document/Model.antt =====
-- crates/trustgrant-document/src/validated.rs: the validated grant document and its parts. A
-- `BTreeMap` is an association list.
use trustgrant.Prelude.{ℕ, Bool, Option, List, Result, ok, ◌>>◌, guard, leb}
use trustgrant.Prelude.Text.{Text}
use trustgrant.Errors.Kinds.{TrustGrantError, invalid_time_window}
use trustgrant.Domain.Names.{
  SelectorKind, OperationName, ResourceTypeName, KeyId, PrincipalKind, PrincipalId,
}
use trustgrant.Domain.Expression.{SelectorExpression}
use trustgrant.Domain.Authority.{AuthorityId, OwnershipAuthorityState}
use trustgrant.Domain.Lineage.{GrantLineage}
use trustgrant.Domain.Ownership.{Instant}

pub record ValidatedPrincipal : Type 0 where
  pub kind : PrincipalKind
  pub id : PrincipalId

pub record ValidatedCapabilities : Type 0 where
  pub recognize : Bool
  pub mint : Bool

pub record ValidatedSelector : Type 0 where
  pub kind : SelectorKind
  pub all : Bool
  pub values : List Text
  pub expressions : List SelectorExpression

pub record ValidatedScope : Type 0 where
  pub all : Bool
  pub allow : List ValidatedSelector
  pub deny : List ValidatedSelector

pub record ValidatedOperationScope : Type 0 where
  pub allow : List OperationName
  pub deny : List OperationName

pub record ValidatedAudienceEntry : Type 0 where
  pub authority_id : AuthorityId
  pub scope : ValidatedScope
  pub principal_scope : Option ValidatedScope

pub record ValidatedTypeCapabilities : Type 0 where
  pub recognize : Option Bool
  pub mint : Option Bool

-- Each limit is a `u64`.
pub record ValidatedMintingConstraints : Type 0 where
  pub max_total : Option ℕ
  pub max_per_user : Option ℕ

pub record ValidatedTypeConstraints : Type 0 where
  pub minting : ValidatedMintingConstraints
  pub audience_scope : List ValidatedAudienceEntry

pub record ValidatedResourceType : Type 0 where
  pub all : Bool
  pub allow : List ValidatedSelector
  pub deny : List ValidatedSelector
  pub capabilities : ValidatedTypeCapabilities
  pub constraints : ValidatedTypeConstraints
  pub operations : Option ValidatedOperationScope

pub record ValidatedTimeWindow : Type 0 where
  pub not_before : Instant
  pub not_after : Instant

unfoldable pub new_validated_time_window :
    Instant → Instant → Result TrustGrantError ValidatedTimeWindow
new_validated_time_window not_before not_after = do
  guard (leb not_before not_after) invalid_time_window
  ok (record { not_before = not_before; not_after = not_after })

-- raw.rs
pub data PostRevocationEffect : Type 0 where
  block_all block_minting_only : PostRevocationEffect

pub record ValidatedRevocation : Type 0 where
  pub revocable : Bool
  pub revocation_endpoint : Text
  pub post_revocation_effect : PostRevocationEffect

-- raw.rs
pub record InteroperabilityProfile : Type 0 where
  pub name : Text
  pub version : ℕ

pub record ValidatedTrustGrantDocument : Type 0 where
  pub lineage : GrantLineage
  pub issuer_authority : AuthorityId
  pub ownership_authority_state : OwnershipAuthorityState
  pub key_id : KeyId
  pub target_scope : ValidatedScope
  pub capabilities : ValidatedCapabilities
  pub default_audience_scope : List ValidatedAudienceEntry
  pub resource_scope : List (ResourceTypeName × ValidatedResourceType)
  pub global_time_window : Option ValidatedTimeWindow
  pub revocation : Option ValidatedRevocation
  pub issued_at : Instant
  pub signature : Text
  pub issuer_principal : Option ValidatedPrincipal
  pub interoperability_profile : Option InteroperabilityProfile
