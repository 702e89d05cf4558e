-- ===== src/Document/Transition/Raw.antt =====
-- ownership_transition.rs: a transition as it is read, and as it is validated.
use trustgrant.Prelude.{ℕ, Bool, Option, List}
use trustgrant.Prelude.Text.{Text}
use trustgrant.Domain.Names.{KeyId, ResourceTypeName}
use trustgrant.Domain.Ownership.{
  Instant, OwnershipTransitionLineage, OwnershipTransitionParties, OwnershipResourceScope,
  OwnershipTimeWindow,
}

pub record RawOwnershipTransitionSelector : Type 0 where
  pub kind : Text
  pub all : Bool
  pub values : Option (List Text)
  pub expressions : Option (List Text)

pub record RawOwnershipTransitionResourceType : Type 0 where
  pub all : Bool
  pub allow : Option (List RawOwnershipTransitionSelector)
  pub deny : Option (List RawOwnershipTransitionSelector)

-- The types in the order of their keys.
pub record RawOwnershipTransitionResourceScope : Type 0 where
  pub types : List (Text × RawOwnershipTransitionResourceType)

pub record RawOwnershipTransitionTimeWindow : Type 0 where
  pub not_before : Instant
  pub not_after : Instant

pub record RawOwnershipTransitionGlobalConstraints : Type 0 where
  pub time : Option RawOwnershipTransitionTimeWindow

pub record RawOwnershipTransitionSignature : Type 0 where
  pub key_id : Text
  pub signature : Text

pub record RawOwnershipTransitionAcceptance : Type 0 where
  pub accepted_at : Instant
  pub key_id : Text
  pub signature : Text

pub record RawOwnershipTransitionDocument : Type 0 where
  pub transition_id : Text
  pub version : ℕ
  pub transition_series_id : Text
  pub revision : ℕ
  pub supersedes_transition_id : Option Text
  pub origin_authority : Text
  pub from_authority : Text
  pub to_authority : Text
  pub canonical_resource_scope : RawOwnershipTransitionResourceScope
  pub global_constraints : Option RawOwnershipTransitionGlobalConstraints
  pub effective_at : Instant
  pub predecessor_signature : RawOwnershipTransitionSignature
  pub successor_acceptance : RawOwnershipTransitionAcceptance

pub record OwnershipTransitionSignature : Type 0 where
  pub key_id : KeyId
  pub signature : Text

pub record OwnershipTransitionAcceptance : Type 0 where
  pub accepted_at : Instant
  pub key_id : KeyId
  pub signature : Text

pub record ValidatedOwnershipTransitionDocument : Type 0 where
  pub lineage : OwnershipTransitionLineage
  pub parties : OwnershipTransitionParties
  pub resource_scope : List (ResourceTypeName × OwnershipResourceScope)
  pub time_window : Option OwnershipTimeWindow
  pub effective_at : Instant
  pub predecessor_signature : OwnershipTransitionSignature
  pub successor_acceptance : OwnershipTransitionAcceptance
