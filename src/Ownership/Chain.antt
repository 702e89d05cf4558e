-- ===== src/Ownership/Chain.antt =====
-- crates/trustgrant-ownership/src/chain.rs: a chain of transitions against a document.
use trustgrant.Prelude.{
  ℕ, Bool, true, ◌&&◌, ◌||◌, not, Option, none, some, List, [], ◌∷◌, ◌++◌, Result, ok, err, ◌>>=◌,
  ◌>>◌, guard, ◌==◌, nat_eq, list_eq, option_eq, eq_list, eq_option, eqb, leb, ltb, if◌then◌else◌,
  length, is_empty, any, all,
}
use trustgrant.Prelude.Text.{Text}
use trustgrant.Prelude.Assoc
use trustgrant.Errors.Kinds.{
  TrustGrantError, missing_ownership_transition_chain, ownership_transition_origin_mismatch,
  invalid_ownership_transition_chain, ownership_transition_active_owner_mismatch,
  ownership_transition_scope_mismatch,
}
use trustgrant.Errors.Limits.{ensure_collection_limit, max_ownership_chain_length}
use trustgrant.Domain.Ids.{TransitionId, TransitionSeriesId}
use trustgrant.Domain.Names.{SelectorKind, ResourceTypeName, resource_type_name_eq, same_kind}
use trustgrant.Domain.Authority.{AuthorityId, same_authority, authority_id_eq}
use trustgrant.Domain.Ownership.{
  Instant, OwnershipTransitionRecord, OwnershipResourceScope, OwnershipSelector,
  OwnershipVerificationRecord, static_owner, transition_chain, within_window,
}
use trustgrant.Document.Model.{
  ValidatedSelector, ValidatedResourceType, ValidatedTrustGrantDocument,
}

-- The values of the transition's selectors of one kind.
unfoldable pub transition_values : SelectorKind → List OwnershipSelector → List Text
unfolding same_kind
transition_values kind [] = []
transition_values kind (s ∷ rest) =
    (if same_kind s.kind kind then s.values else []) ++ transition_values kind rest

unfoldable pub ensure_selector_covered :
    ValidatedSelector → List OwnershipSelector → Result TrustGrantError (Unit {0})
unfolding transition_values any all eq_list
ensure_selector_covered selector transition_selectors = do
  guard (not (selector.all || (not (is_empty selector.expressions) || is_empty selector.values)))
      ownership_transition_scope_mismatch
  guard
      (all (λ value. any (λ t. t == value) (transition_values selector.kind transition_selectors))
        selector.values)
      ownership_transition_scope_mismatch

unfoldable pub ensure_selectors_covered :
    List ValidatedSelector → List OwnershipSelector → Result TrustGrantError (Unit {0})
unfolding ensure_selector_covered
ensure_selectors_covered [] transition_selectors = ok tt
ensure_selectors_covered (s ∷ rest) transition_selectors = do
  ensure_selector_covered s transition_selectors
  ensure_selectors_covered rest transition_selectors

unfoldable pub ensure_resource_type_scope_covered :
    ValidatedResourceType → OwnershipResourceScope → Result TrustGrantError (Unit {0})
unfolding ensure_selectors_covered
ensure_resource_type_scope_covered rt scope = do
  guard (not (rt.all || not (is_empty rt.deny))) ownership_transition_scope_mismatch
  ensure_selectors_covered rt.allow scope.selectors

-- `transition_scope.get(resource_type)` and what follows.
abbrev pub covered_by :
    ValidatedResourceType → Option OwnershipResourceScope → Result TrustGrantError (Unit {0})
covered_by rt none = err ownership_transition_scope_mismatch
covered_by rt (some scope) = ensure_resource_type_scope_covered rt scope

unfoldable pub ensure_transition_scope_covers_document :
    List (ResourceTypeName × ValidatedResourceType)
    → List (ResourceTypeName × OwnershipResourceScope)
    → Result TrustGrantError (Unit {0})
unfolding ensure_resource_type_scope_covered Assoc.get eq_list
ensure_transition_scope_covers_document [] transition_scope = ok tt
ensure_transition_scope_covers_document ((name, rt) ∷ rest) transition_scope = do
  covered_by rt (Assoc.get name transition_scope)
  ensure_transition_scope_covers_document rest transition_scope

-- The variables of the loop over the transitions.
pub record Progress : Type 0 where
  pub current_owner : AuthorityId
  pub seen_transition_ids : List TransitionId
  pub current_series_id : Option TransitionSeriesId
  pub current_revision : Option ℕ
  pub previous_effective_at : Option Instant
  pub tip : Option TransitionId

abbrev pub initial_progress : AuthorityId → Progress
initial_progress origin = record {
  current_owner = origin;
  seen_transition_ids = [];
  current_series_id = none;
  current_revision = none;
  previous_effective_at = none;
  tip = none;
}

abbrev pub series_fits : Option TransitionSeriesId → TransitionSeriesId → Bool
series_fits none id = true
series_fits (some current) id = eqb id current

-- Revisions grow and name the transition before; the first is revision one.
abbrev pub revision_fits : Option ℕ → Option TransitionId → ℕ → Option TransitionId → Bool
revision_fits none tip revision supersedes = eqb revision 1
revision_fits (some current) tip revision supersedes = ltb current revision && supersedes == tip

abbrev pub not_earlier : Option Instant → Instant → Bool
not_earlier none at = true
not_earlier (some previous) at = leb previous at

module _ (document : ValidatedTrustGrantDocument) (checked_at : Instant) where
  unfoldable pub accept : Progress → OwnershipTransitionRecord → Result TrustGrantError Progress
  unfolding same_authority any eq_option within_window ensure_transition_scope_covers_document
      eq_list
  accept p t = do
    guard (t.parties.origin_authority == document.ownership_authority_state.origin_authority)
        ownership_transition_origin_mismatch
    guard (not (any (λ id. eqb id t.lineage.transition_id) p.seen_transition_ids))
        invalid_ownership_transition_chain
    guard (series_fits p.current_series_id t.lineage.transition_series_id)
        invalid_ownership_transition_chain
    guard
        (revision_fits p.current_revision p.tip t.lineage.revision.get
          t.lineage.supersedes_transition_id)
        invalid_ownership_transition_chain
    guard (t.parties.predecessor_authority == p.current_owner) invalid_ownership_transition_chain
    guard (leb t.effective_at checked_at) invalid_ownership_transition_chain
    guard (within_window t.time_window checked_at) invalid_ownership_transition_chain
    guard (not_earlier p.previous_effective_at t.effective_at) invalid_ownership_transition_chain
    ensure_transition_scope_covers_document document.resource_scope t.resource_scope
    ok (record {
      current_owner = t.parties.successor_authority;
      seen_transition_ids = t.lineage.transition_id ∷ p.seen_transition_ids;
      current_series_id = some t.lineage.transition_series_id;
      current_revision = some t.lineage.revision.get;
      previous_effective_at = some t.effective_at;
      tip = some t.lineage.transition_id;
    })

  unfoldable pub accept_all :
      Progress → List OwnershipTransitionRecord → Result TrustGrantError Progress
  unfolding accept
  accept_all p [] = ok p
  accept_all p (t ∷ ts) = do p' ← accept p t; accept_all p' ts

  -- No transitions: the origin must still own the resources.
  unfoldable pub verify_static_owner : Result TrustGrantError OwnershipVerificationRecord
  unfolding same_authority
  verify_static_owner =
      let state = document.ownership_authority_state in
      do
        guard (state.origin_authority == state.active_owning_authority)
            missing_ownership_transition_chain
        ok (record {
          origin_authority = state.origin_authority;
          active_owning_authority = state.active_owning_authority;
          checked_at = checked_at;
          proof_kind = static_owner;
          transition_chain_tip = none;
        })

  unfoldable pub verify_chain :
      List OwnershipTransitionRecord → Result TrustGrantError OwnershipVerificationRecord
  unfolding accept_all same_authority
  verify_chain transitions =
      let state = document.ownership_authority_state in
      do
        p ← accept_all (initial_progress state.origin_authority) transitions
        guard (p.current_owner == state.active_owning_authority)
            ownership_transition_active_owner_mismatch
        ok (record {
          origin_authority = state.origin_authority;
          active_owning_authority = p.current_owner;
          checked_at = checked_at;
          proof_kind = transition_chain;
          transition_chain_tip = p.tip;
        })

  unfoldable pub verify_document_ownership :
      List OwnershipTransitionRecord → Result TrustGrantError OwnershipVerificationRecord
  unfolding ensure_collection_limit verify_static_owner verify_chain
  verify_document_ownership transitions = do
    ensure_collection_limit "ownership_transition.chain" (length transitions)
        max_ownership_chain_length
    if is_empty transitions then verify_static_owner else verify_chain transitions
