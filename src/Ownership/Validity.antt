-- ===== src/Ownership/Validity.antt =====
-- chain.rs: which chains of transitions are accepted, and whom they make the owner.
use trustgrant.Prelude.{
  ℕ, ◌≤◌, ◌<◌, Bool, true, not, Option, none, some, List, [], ◌∷◌, ◌≡◌, refl, ◌↔◌, inl, inr, arith,
  Bool-cases, Result, ok, ◌>>◌, guard, guard_iff, check_iff, ok_iff, ◌==◌, nat_eq, option_eq, eqb,
  eqb_iff, leb, any, All, none_iff,
}
use trustgrant.Errors.Kinds.{
  TrustGrantError, ownership_transition_origin_mismatch, invalid_ownership_transition_chain,
}
use trustgrant.Domain.Ids.{TransitionId}
use trustgrant.Domain.Authority.{same_authority_iff, authority_id_eq}
use trustgrant.Domain.Ownership.{
  Instant, OwnershipTransitionRecord, OwnershipTimeWindow, within_window, window_contains,
}
use trustgrant.Document.Model.{ValidatedTrustGrantDocument}
use trustgrant.Ownership.Chain.{
  ensure_transition_scope_covers_document, Progress, accept, series_fits, revision_fits,
  not_earlier,
}
use trustgrant.Ownership.Coverage.{Covers, ensure_transition_scope_covers_document_iff}

abbrev pub InWindow : Option OwnershipTimeWindow → Instant → Type 0
InWindow none at = Unit
InWindow (some w) at = (w.not_before ≤ at) × (at ≤ w.not_after)

-- What each transition must be by itself.
pub record Stands (d : ValidatedTrustGrantDocument) (at : Instant) (t : OwnershipTransitionRecord)
    : Type 0 where
  pub origin : t.parties.origin_authority ≡ d.ownership_authority_state.origin_authority
  pub in_effect : t.effective_at ≤ at
  pub in_window : InWindow t.time_window at
  pub covers : Covers t.resource_scope d.resource_scope

-- What a transition must be to the one before it.
pub record Follows (previous t : OwnershipTransitionRecord) : Type 0 where
  pub hands_over : t.parties.predecessor_authority ≡ previous.parties.successor_authority
  pub one_series : t.lineage.transition_series_id ≡ previous.lineage.transition_series_id
  pub newer : previous.lineage.revision.get < t.lineage.revision.get
  pub supersedes : t.lineage.supersedes_transition_id ≡ some previous.lineage.transition_id
  pub not_earlier : previous.effective_at ≤ t.effective_at

-- The transitions after `previous`, where `ids` are those of the transitions so far.
abbrev pub ChainFrom :
    ValidatedTrustGrantDocument
    → Instant
    → List TransitionId
    → OwnershipTransitionRecord
    → List OwnershipTransitionRecord
    → Type 0
ChainFrom d at ids previous [] = Unit
ChainFrom d at ids previous (t ∷ ts) =
    (Stands d at t × Follows previous t × All (λ id. ¬ (id ≡ t.lineage.transition_id)) ids)
    × ChainFrom d at (t.lineage.transition_id ∷ ids) t ts

abbrev pub last :
    OwnershipTransitionRecord → List OwnershipTransitionRecord → OwnershipTransitionRecord
last t [] = t
last t (u ∷ us) = last u us

-- A chain starts at the origin with revision one, and ends at the active owner.
pub record IsChain (d : ValidatedTrustGrantDocument) (at : Instant) (t : OwnershipTransitionRecord)
    (ts : List OwnershipTransitionRecord) : Type 0 where
  pub stands : Stands d at t
  pub first_revision : t.lineage.revision.get ≡ 1
  pub from_origin : t.parties.predecessor_authority ≡ d.ownership_authority_state.origin_authority
  pub chained : ChainFrom d at (t.lineage.transition_id ∷ []) t ts
  pub to_active :
      (last t ts).parties.successor_authority ≡ d.ownership_authority_state.active_owning_authority

-- The variables of the loop after a transition.
abbrev pub after : List TransitionId → OwnershipTransitionRecord → Progress
after ids t = record {
  current_owner = t.parties.successor_authority;
  seen_transition_ids = ids;
  current_series_id = some t.lineage.transition_series_id;
  current_revision = some t.lineage.revision.get;
  previous_effective_at = some t.effective_at;
  tip = some t.lineage.transition_id;
}

-- The tests on one transition.
pub record Fits (d : ValidatedTrustGrantDocument) (at : Instant) (p : Progress)
    (t : OwnershipTransitionRecord) : Type 0 where
  pub stands : Stands d at t
  pub fresh : All (λ id. ¬ (id ≡ t.lineage.transition_id)) p.seen_transition_ids
  pub series : series_fits p.current_series_id t.lineage.transition_series_id ≡ true
  pub revision :
      revision_fits p.current_revision p.tip t.lineage.revision.get
        t.lineage.supersedes_transition_id
      ≡ true
  pub hands_over : t.parties.predecessor_authority ≡ p.current_owner
  pub order : not_earlier p.previous_effective_at t.effective_at ≡ true

window_iff :
    (w : Option OwnershipTimeWindow) (at : Instant) → (within_window w at ≡ true) ↔ InWindow w at
unfolding within_window window_contains
window_iff none at = (λ _. tt, λ _. refl)
window_iff (some w) at = ground arith

-- A guard with what its test decides.
pub guard_decides :
    {P : Type 0} {E B : Type 0} (test : Bool) (e : E) (k : Result E B) (b : B)
    → (test ≡ true) ↔ P
    → ((guard test e >> k) ≡ ok b) ↔ (P × (k ≡ ok b))
guard_decides test e k b (to, from) =
    let (both, both') = check_iff (guard test e) k b in
    let (out, back) = guard_iff test e in
    (λ h. let (g, r) = both h in (to (out g), r), λ (p, r). both' (back (from p), r))

fresh_iff :
    (ids : List TransitionId) (id : TransitionId)
    → (not (any (λ j. eqb j id) ids) ≡ true) ↔ All (λ j. ¬ (j ≡ id)) ids
fresh_iff ids id =
    let (to, from) = none_iff (λ j. j ≡ id) (λ j. eqb j id) (λ j. eqb_iff j id) ids in
    elim (Bool-cases (any (λ j. eqb j id) ids)) [
      | inl e ↦ rw e (λ h. cc, λ f. cc (from f))
      | inr e ↦ rw e (λ _. to e, λ _. refl)
    ]

true_iff : (b : Bool) → (b ≡ true) ↔ (b ≡ true)
true_iff b = (λ h. h, λ h. h)

pub leb_iff : (a b : ℕ) → (leb a b ≡ true) ↔ (a ≤ b)
leb_iff a b = ground arith

pub accept_iff :
    (d : ValidatedTrustGrantDocument) (at : Instant) (p p' : Progress)
    (t : OwnershipTransitionRecord)
    → (accept d at p t ≡ ok p')
      ↔ (Fits d at p t × (p' ≡ after (t.lineage.transition_id ∷ p.seen_transition_ids) t))
unfolding accept
accept_iff d at p p' t =
    let (a₁, b₁) =
      guard_decides (t.parties.origin_authority == d.ownership_authority_state.origin_authority)
        ownership_transition_origin_mismatch _ p'
        (same_authority_iff t.parties.origin_authority
          d.ownership_authority_state.origin_authority) in
    let (a₂, b₂) =
      guard_decides (not (any (λ id. eqb id t.lineage.transition_id) p.seen_transition_ids))
        invalid_ownership_transition_chain _ p'
        (fresh_iff p.seen_transition_ids t.lineage.transition_id) in
    let (a₃, b₃) =
      guard_decides (series_fits p.current_series_id t.lineage.transition_series_id)
        invalid_ownership_transition_chain _ p' (true_iff _) in
    let (a₄, b₄) =
      guard_decides
        (revision_fits p.current_revision p.tip t.lineage.revision.get
          t.lineage.supersedes_transition_id)
        invalid_ownership_transition_chain _ p' (true_iff _) in
    let (a₅, b₅) =
      guard_decides (t.parties.predecessor_authority == p.current_owner)
        invalid_ownership_transition_chain _ p'
        (same_authority_iff t.parties.predecessor_authority p.current_owner) in
    let (a₆, b₆) =
      guard_decides (leb t.effective_at at) invalid_ownership_transition_chain _ p'
        (leb_iff t.effective_at at) in
    let (a₇, b₇) =
      guard_decides (within_window t.time_window at) invalid_ownership_transition_chain _ p'
        (window_iff t.time_window at) in
    let (a₈, b₈) =
      guard_decides (not_earlier p.previous_effective_at t.effective_at)
        invalid_ownership_transition_chain _ p' (true_iff _) in
    let (a₉, b₉) =
      check_iff (ensure_transition_scope_covers_document d.resource_scope t.resource_scope) _ p' in
    let (c, c') = ensure_transition_scope_covers_document_iff d.resource_scope t.resource_scope in
    let (o, o') =
      ok_iff {E = TrustGrantError} (after (t.lineage.transition_id ∷ p.seen_transition_ids) t) p' in
    (
      λ h.
          let (p₁, h₁) = a₁ h in
          let (p₂, h₂) = a₂ h₁ in
          let (p₃, h₃) = a₃ h₂ in
          let (p₄, h₄) = a₄ h₃ in
          let (p₅, h₅) = a₅ h₄ in
          let (p₆, h₆) = a₆ h₅ in
          let (p₇, h₇) = a₇ h₆ in
          let (p₈, h₈) = a₈ h₇ in
          let (p₉, h₉) = a₉ h₈ in
          (
            record {
              stands = record { origin = p₁; in_effect = p₆; in_window = p₇; covers = c p₉ };
              fresh = p₂;
              series = p₃;
              revision = p₄;
              hands_over = p₅;
              order = p₈;
            },
            o h₉,
          ),
      λ (f, e). b₁ (
        f.stands.origin,
        b₂ (
          f.fresh,
          b₃ (
            f.series,
            b₄ (
              f.revision,
              b₅ (
                f.hands_over,
                b₆ (
                  f.stands.in_effect,
                  b₇ (f.stands.in_window, b₈ (f.order, b₉ (c' f.stands.covers, o' e))),
                ),
              ),
            ),
          ),
        ),
      ),
    )
