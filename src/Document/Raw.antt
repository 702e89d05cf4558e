-- ===== src/Document/Raw.antt =====
-- crates/trustgrant-document/src/raw.rs: a document as it is read, before validation.
use trustgrant.Prelude.{ℕ, Bool, Option, List}
use trustgrant.Prelude.Text.{Text}
use trustgrant.Domain.Ownership.{Instant}
use trustgrant.Document.Model.{PostRevocationEffect, InteroperabilityProfile}

pub data RawSupersessionPolicy : Type 0 where
  coexist supersede_previous : RawSupersessionPolicy

pub record RawPrincipal : Type 0 where
  pub kind : Text
  pub id : Text

pub record RawSelector : Type 0 where
  pub kind : Text
  pub all : Bool
  pub values : Option (List Text)
  pub expressions : Option (List Text)

pub record RawScope : Type 0 where
  pub all : Bool
  pub allow : Option (List RawSelector)
  pub deny : Option (List RawSelector)

pub record RawCapabilities : Type 0 where
  pub recognize : Bool
  pub mint : Bool

pub record RawAudienceEntry : Type 0 where
  pub authority_id : Text
  pub scope : RawScope
  pub principal_scope : Option RawScope

pub record RawTypeCapabilities : Type 0 where
  pub recognize : Option Bool
  pub mint : Option Bool

pub record RawMintingConstraints : Type 0 where
  pub max_total : Option ℕ
  pub max_per_user : Option ℕ

pub record RawTypeConstraints : Type 0 where
  pub minting : RawMintingConstraints
  pub audience_scope : Option (List RawAudienceEntry)

pub record RawOperationScope : Type 0 where
  pub allow : Option (List Text)
  pub deny : Option (List Text)

pub record RawResourceType : Type 0 where
  pub all : Bool
  pub allow : Option (List RawSelector)
  pub deny : Option (List RawSelector)
  pub capabilities : RawTypeCapabilities
  pub constraints : RawTypeConstraints
  pub operations : Option RawOperationScope

-- The types in the order of their keys.
pub record RawResourceScope : Type 0 where
  pub types : List (Text × RawResourceType)

pub record RawTimeWindow : Type 0 where
  pub not_before : Instant
  pub not_after : Instant

pub record RawGlobalConstraints : Type 0 where
  pub time : Option RawTimeWindow

pub record RawRevocation : Type 0 where
  pub revocable : Bool
  pub revocation_endpoint : Text
  pub post_revocation_effect : PostRevocationEffect

pub record RawTrustGrantDocument : Type 0 where
  pub trustgrant_id : Text
  pub version : ℕ
  pub grant_series_id : Text
  pub revision : ℕ
  pub supersedes : Option Text
  pub supersession_policy : RawSupersessionPolicy
  pub issuer_authority : Text
  pub origin_authority : Text
  pub active_owning_authority : Text
  pub key_id : Text
  pub target_scope : RawScope
  pub capabilities : RawCapabilities
  pub default_audience_scope : Option (List RawAudienceEntry)
  pub resource_scope : RawResourceScope
  pub global_constraints : Option RawGlobalConstraints
  pub revocation : Option RawRevocation
  pub issued_at : Instant
  pub signature : Text
  pub issuer_principal : Option RawPrincipal
  pub interoperability_profile : Option InteroperabilityProfile
