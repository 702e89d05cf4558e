-- ===== src/Document/Transition/Validate.antt =====
-- ownership_transition.rs: from a raw transition to a validated one, and to the record that the
-- chain is made of. The parameters are `str::to_lowercase` and `Uuid::parse_str`.
use trustgrant.Prelude.{
  String, ◌||◌, not, Option, none, some, List, [], ◌∷◌, Result, ok, err, ◌>>=◌, ◌>>◌, guard, ok_or,
  eqb, length, is_empty, is_some, traverse, traverse_option, if◌then◌else◌, eq_list,
}
use trustgrant.Prelude.Text.{Text, trim}
use trustgrant.Prelude.Assoc
use trustgrant.Errors.Kinds.{
  TrustGrantError, invalid_protocol_version, invalid_ownership_transition_scope,
  invalid_ownership_transition_effective_at, empty_string_field,
}
use trustgrant.Errors.Limits.{
  ensure_collection_limit, ensure_string_limit, max_resource_types, max_selectors_per_scope,
  max_selector_values_per_selector, max_selector_value_bytes,
}
use trustgrant.Domain.Ids.{Uuid, parse_prefixed_uuid}
use trustgrant.Domain.Lineage.{new_grant_revision}
use trustgrant.Domain.Names.{
  ResourceTypeName, resource_type_name_eq, new_resource_type_name, new_key_id,
}
use trustgrant.Domain.Authority.{new_authority_id}
use trustgrant.Domain.Ownership.{
  OwnershipTransitionLineage, OwnershipTransitionParties, OwnershipSelector, OwnershipResourceScope,
  OwnershipTimeWindow, OwnershipTransitionRecord, new_ownership_transition_lineage,
  new_ownership_transition_parties, new_ownership_selector, new_ownership_resource_scope,
  new_ownership_time_window, within_window, new_ownership_transition_record,
}
use trustgrant.Document.Transition.Raw.{
  RawOwnershipTransitionSelector, RawOwnershipTransitionResourceType,
  RawOwnershipTransitionGlobalConstraints, RawOwnershipTransitionTimeWindow,
  RawOwnershipTransitionSignature, RawOwnershipTransitionAcceptance, RawOwnershipTransitionDocument,
  OwnershipTransitionSignature, OwnershipTransitionAcceptance, ValidatedOwnershipTransitionDocument,
}

unfoldable pub normalize_non_empty : String → Text → Result TrustGrantError Text
unfolding trim
normalize_non_empty field_name value =
    if is_empty (trim value) then err (empty_string_field field_name) else ok (trim value)

unfoldable pub check_selector_value : Text → Result TrustGrantError Text
unfolding ensure_string_limit
check_selector_value value = do
  ensure_string_limit "ownership_transition.selector_value" value max_selector_value_bytes
  ok value

unfoldable pub validate_transition_selector :
    RawOwnershipTransitionSelector → Result TrustGrantError OwnershipSelector
unfolding ensure_collection_limit traverse check_selector_value new_ownership_selector
validate_transition_selector raw = do
  guard (not (raw.all || is_some raw.expressions)) invalid_ownership_transition_scope
  values ← ok_or raw.values invalid_ownership_transition_scope
  ensure_collection_limit "ownership_transition.selector_values" (length values)
      max_selector_values_per_selector
  values' ← traverse check_selector_value values
  new_ownership_selector raw.kind values'

unfoldable pub validate_transition_resource_type :
    RawOwnershipTransitionResourceType → Result TrustGrantError OwnershipResourceScope
unfolding ensure_collection_limit traverse validate_transition_selector new_ownership_resource_scope
validate_transition_resource_type raw = do
  guard (not (raw.all || is_some raw.deny)) invalid_ownership_transition_scope
  selectors ← ok_or raw.allow invalid_ownership_transition_scope
  ensure_collection_limit "ownership_transition.selectors" (length selectors)
      max_selectors_per_scope
  selectors' ← traverse validate_transition_selector selectors
  new_ownership_resource_scope selectors'

-- `collect` into a map: a key that comes again replaces the scope before it.
unfoldable pub collect_transition_scope :
    List (ResourceTypeName × OwnershipResourceScope)
    → List (Text × RawOwnershipTransitionResourceType)
    → Result TrustGrantError (List (ResourceTypeName × OwnershipResourceScope))
unfolding new_resource_type_name validate_transition_resource_type Assoc.insert eq_list
collect_transition_scope collected [] = ok collected
collect_transition_scope collected ((name, raw) ∷ types) = do
  name' ← new_resource_type_name name
  scope ← validate_transition_resource_type raw
  collect_transition_scope (Assoc.insert name' scope collected) types

unfoldable pub validate_transition_scope :
    List (Text × RawOwnershipTransitionResourceType)
    → Result TrustGrantError (List (ResourceTypeName × OwnershipResourceScope))
unfolding ensure_collection_limit collect_transition_scope
validate_transition_scope types = do
  guard (not (is_empty types)) invalid_ownership_transition_scope
  ensure_collection_limit "ownership_transition.resource_types" (length types) max_resource_types
  collect_transition_scope [] types

unfoldable pub validate_transition_signature :
    RawOwnershipTransitionSignature → String → Result TrustGrantError OwnershipTransitionSignature
unfolding new_key_id normalize_non_empty
validate_transition_signature raw field_name = do
  key_id ← new_key_id raw.key_id
  signature ← normalize_non_empty field_name raw.signature
  ok (record { key_id = key_id; signature = signature })

unfoldable pub validate_transition_acceptance :
    RawOwnershipTransitionAcceptance → Result TrustGrantError OwnershipTransitionAcceptance
unfolding new_key_id normalize_non_empty
validate_transition_acceptance raw = do
  key_id ← new_key_id raw.key_id
  signature ← normalize_non_empty "successor_acceptance.signature" raw.signature
  ok (record { accepted_at = raw.accepted_at; key_id = key_id; signature = signature })

-- `and_then(|constraints| constraints.time)`
abbrev pub time_of :
    Option RawOwnershipTransitionGlobalConstraints → Option RawOwnershipTransitionTimeWindow
time_of none = none
time_of (some constraints) = constraints.time

unfoldable pub validate_transition_window :
    Option RawOwnershipTransitionGlobalConstraints
    → Result TrustGrantError (Option OwnershipTimeWindow)
unfolding traverse_option new_ownership_time_window
validate_transition_window constraints =
    traverse_option (λ w. new_ownership_time_window w.not_before w.not_after) (time_of constraints)

module _ (to_lowercase : Text → Text) where
  unfoldable pub validate_transition_parties :
      RawOwnershipTransitionDocument → Result TrustGrantError OwnershipTransitionParties
  unfolding new_authority_id new_ownership_transition_parties
  validate_transition_parties raw = do
    origin ← new_authority_id to_lowercase raw.origin_authority
    predecessor ← new_authority_id to_lowercase raw.from_authority
    successor ← new_authority_id to_lowercase raw.to_authority
    new_ownership_transition_parties origin predecessor successor

  module _ (parse_str : Text → Option Uuid) where
    unfoldable pub validate_transition_lineage :
        RawOwnershipTransitionDocument → Result TrustGrantError OwnershipTransitionLineage
    unfolding parse_prefixed_uuid new_grant_revision traverse_option
        new_ownership_transition_lineage
    validate_transition_lineage raw = do
      transition_id ← parse_prefixed_uuid parse_str raw.transition_id "tgt"
      transition_series_id ← parse_prefixed_uuid parse_str raw.transition_series_id "tgts"
      revision ← new_grant_revision raw.revision
      supersedes ←
          traverse_option (λ id. parse_prefixed_uuid parse_str id "tgt")
            raw.supersedes_transition_id
      new_ownership_transition_lineage transition_id transition_series_id revision supersedes

    -- `TryFrom<RawOwnershipTransitionDocument>`
    unfoldable pub transition_try_from :
        RawOwnershipTransitionDocument → Result TrustGrantError ValidatedOwnershipTransitionDocument
    unfolding validate_transition_lineage validate_transition_parties validate_transition_scope
        validate_transition_window within_window validate_transition_signature
        validate_transition_acceptance
    transition_try_from raw = do
      guard (eqb raw.version 0) (invalid_protocol_version raw.version)
      lineage ← validate_transition_lineage raw
      parties ← validate_transition_parties raw
      resource_scope ← validate_transition_scope raw.canonical_resource_scope.types
      time_window ← validate_transition_window raw.global_constraints
      guard (within_window time_window raw.effective_at) invalid_ownership_transition_effective_at
      predecessor_signature ←
          validate_transition_signature raw.predecessor_signature "predecessor_signature"
      successor_acceptance ← validate_transition_acceptance raw.successor_acceptance
      ok (record {
        lineage = lineage;
        parties = parties;
        resource_scope = resource_scope;
        time_window = time_window;
        effective_at = raw.effective_at;
        predecessor_signature = predecessor_signature;
        successor_acceptance = successor_acceptance;
      })

unfoldable pub to_record :
    ValidatedOwnershipTransitionDocument → Result TrustGrantError OwnershipTransitionRecord
unfolding new_ownership_transition_record
to_record d =
    new_ownership_transition_record d.lineage d.parties d.resource_scope d.time_window
      d.effective_at
