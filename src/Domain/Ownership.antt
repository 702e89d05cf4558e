-- ===== src/Domain/Ownership.antt =====
-- crates/trustgrant-domain/src/ownership.rs: transitions of ownership and their scopes.
-- An instant is a number, its nanoseconds after the least one; the code only compares instants.
use trustgrant.Prelude.{
  ℕ, Bool, true, ◌&&◌, Option, none, some, List, [], ◌∷◌, Result, ok, ◌>>=◌, ◌>>◌, guard, ◌==◌,
  nat_eq, list_eq, option_eq, eq_list, eq_option, eqb, ltb, leb, not, is_empty, is_some, any,
}
use trustgrant.Prelude.Text.{Text}
use trustgrant.Errors.Kinds.{
  TrustGrantError, invalid_supersedes_for_first_revision, self_supersession, duplicate_selector,
  invalid_time_window, missing_supersedes_for_non_first_ownership_transition_revision,
  invalid_ownership_transition_scope, invalid_ownership_transition_parties,
  invalid_ownership_transition_effective_at,
}
use trustgrant.Domain.Ids.{TransitionId, TransitionSeriesId}
use trustgrant.Domain.Lineage.{GrantRevision}
use trustgrant.Domain.Names.{
  SelectorKind, ResourceTypeName, same_kind, new_selector_kind, normalize_non_empty,
}
use trustgrant.Domain.Authority.{AuthorityId, authority_id_eq, same_authority}

abbrev pub Instant : Type 0
Instant = ℕ

pub record OwnershipTransitionLineage : Type 0 where
  pub transition_id : TransitionId
  pub transition_series_id : TransitionSeriesId
  pub revision : GrantRevision
  pub supersedes_transition_id : Option TransitionId

unfoldable pub new_ownership_transition_lineage :
    TransitionId
    → TransitionSeriesId
    → GrantRevision
    → Option TransitionId
    → Result TrustGrantError OwnershipTransitionLineage
unfolding eq_option
new_ownership_transition_lineage transition_id transition_series_id revision supersedes = do
  guard (not (eqb revision.get 1 && is_some supersedes)) invalid_supersedes_for_first_revision
  guard (not (ltb 1 revision.get && not (is_some supersedes)))
      missing_supersedes_for_non_first_ownership_transition_revision
  guard (not (supersedes == some transition_id)) self_supersession
  ok (record {
    transition_id = transition_id;
    transition_series_id = transition_series_id;
    revision = revision;
    supersedes_transition_id = supersedes;
  })

pub record OwnershipSelector : Type 0 where
  pub kind : SelectorKind
  pub values : List Text

-- The loop of `OwnershipSelector::new`: `seen` holds the values so far.
unfoldable pub normalize_distinct : List Text → List Text → Result TrustGrantError (List Text)
unfolding normalize_non_empty any eq_list
normalize_distinct seen [] = ok []
normalize_distinct seen (value ∷ values) = do
  normalized ← normalize_non_empty "ownership_selector.value" value
  guard (not (any (λ v. v == normalized) seen)) duplicate_selector
  rest ← normalize_distinct (normalized ∷ seen) values
  ok (normalized ∷ rest)

unfoldable pub new_ownership_selector : Text → List Text → Result TrustGrantError OwnershipSelector
unfolding normalize_distinct new_selector_kind
new_ownership_selector kind values = do
  guard (not (is_empty values)) invalid_ownership_transition_scope
  normalized_values ← normalize_distinct [] values
  kind' ← new_selector_kind kind
  ok (record { kind = kind'; values = normalized_values })

pub record OwnershipResourceScope : Type 0 where
  pub selectors : List OwnershipSelector

-- The derived `PartialEq`; kinds are compared by `same_kind`.
unfoldable pub same_ownership_selector : OwnershipSelector → OwnershipSelector → Bool
unfolding same_kind eq_list
same_ownership_selector a b = same_kind a.kind b.kind && a.values == b.values

-- The loop of `OwnershipResourceScope::new`.
unfoldable pub check_distinct_selectors :
    List OwnershipSelector → List OwnershipSelector → Result TrustGrantError (Unit {0})
unfolding same_ownership_selector any
check_distinct_selectors seen [] = ok tt
check_distinct_selectors seen (s ∷ rest) = do
  guard (not (any (λ t. same_ownership_selector t s) seen)) duplicate_selector
  check_distinct_selectors (s ∷ seen) rest

unfoldable pub new_ownership_resource_scope :
    List OwnershipSelector → Result TrustGrantError OwnershipResourceScope
unfolding check_distinct_selectors
new_ownership_resource_scope selectors = do
  guard (not (is_empty selectors)) invalid_ownership_transition_scope
  check_distinct_selectors [] selectors
  ok (record { selectors = selectors })

pub record OwnershipTimeWindow : Type 0 where
  pub not_before : Instant
  pub not_after : Instant

unfoldable pub new_ownership_time_window :
    Instant → Instant → Result TrustGrantError OwnershipTimeWindow
new_ownership_time_window not_before not_after = do
  guard (leb not_before not_after) invalid_time_window
  ok (record { not_before = not_before; not_after = not_after })

unfoldable pub window_contains : OwnershipTimeWindow → Instant → Bool
window_contains w timestamp = leb w.not_before timestamp && leb timestamp w.not_after

pub record OwnershipTransitionParties : Type 0 where
  pub origin_authority : AuthorityId
  pub predecessor_authority : AuthorityId
  pub successor_authority : AuthorityId

unfoldable pub new_ownership_transition_parties :
    AuthorityId → AuthorityId → AuthorityId → Result TrustGrantError OwnershipTransitionParties
unfolding same_authority
new_ownership_transition_parties origin predecessor successor = do
  guard (not (predecessor == successor)) invalid_ownership_transition_parties
  ok (record {
    origin_authority = origin;
    predecessor_authority = predecessor;
    successor_authority = successor;
  })

pub record OwnershipTransitionRecord : Type 0 where
  pub lineage : OwnershipTransitionLineage
  pub parties : OwnershipTransitionParties
  pub resource_scope : List (ResourceTypeName × OwnershipResourceScope)
  pub time_window : Option OwnershipTimeWindow
  pub effective_at : Instant

-- `if let Some(window) = time_window && !window.contains(timestamp)`
unfoldable pub within_window : Option OwnershipTimeWindow → Instant → Bool
unfolding window_contains
within_window none timestamp = true
within_window (some w) timestamp = window_contains w timestamp

unfoldable pub new_ownership_transition_record :
    OwnershipTransitionLineage
    → OwnershipTransitionParties
    → List (ResourceTypeName × OwnershipResourceScope)
    → Option OwnershipTimeWindow
    → Instant
    → Result TrustGrantError OwnershipTransitionRecord
unfolding within_window
new_ownership_transition_record lineage parties resource_scope time_window effective_at = do
  guard (not (is_empty resource_scope)) invalid_ownership_transition_scope
  guard (within_window time_window effective_at) invalid_ownership_transition_effective_at
  ok (record {
    lineage = lineage;
    parties = parties;
    resource_scope = resource_scope;
    time_window = time_window;
    effective_at = effective_at;
  })

pub data OwnershipProofKind : Type 0 where
  static_owner transition_chain : OwnershipProofKind

pub record OwnershipVerificationRecord : Type 0 where
  pub origin_authority : AuthorityId
  pub active_owning_authority : AuthorityId
  pub checked_at : Instant
  pub proof_kind : OwnershipProofKind
  pub transition_chain_tip : Option TransitionId
