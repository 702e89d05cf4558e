-- ===== src/Ownership/Verdict.antt =====
-- chain.rs, `verify_document_ownership`: accepted exactly on valid chains.
use trustgrant.Prelude.{
  ℕ, String, ◌≤◌, ◌<◌, true, Option, none, some, List, [], ◌∷◌, ◌≡◌, refl, ◌↔◌, inl, inr, arith,
  Bool-cases, ok, >>=-eq-ok, check_iff, ok_iff, ◌==◌, nat_eq, option_eq, eq_option_iff, eqb_iff,
  is_empty, All, length, if◌then◌else◌,
}
use trustgrant.Errors.Kinds.{
  TrustGrantError, missing_ownership_transition_chain, ownership_transition_active_owner_mismatch,
}
use trustgrant.Errors.Limits.{ensure_collection_limit, max_ownership_chain_length}
use trustgrant.Domain.Ids.{TransitionId}
use trustgrant.Domain.Authority.{same_authority_iff, authority_id_eq}
use trustgrant.Domain.Ownership.{
  Instant, OwnershipTransitionRecord, OwnershipVerificationRecord, static_owner, transition_chain,
}
use trustgrant.Document.Model.{ValidatedTrustGrantDocument}
use trustgrant.Ownership.Chain.{
  Progress, initial_progress, accept, accept_all, verify_static_owner, verify_chain,
  verify_document_ownership, revision_fits,
}
use trustgrant.Ownership.Validity.{
  Stands, Follows, ChainFrom, last, IsChain, after, Fits, accept_iff, guard_decides, leb_iff,
}

revision_iff :
    (previous revision : ℕ) (tip : TransitionId) (supersedes : Option TransitionId)
    → (revision_fits (some previous) (some tip) revision supersedes ≡ true)
      ↔ ((previous < revision) × (supersedes ≡ some tip))
revision_iff previous revision tip supersedes =
    let (to, from) = eq_option_iff supersedes (some tip) in
    elim (Bool-cases (supersedes == some tip)) [
      | inl e ↦ rw e (λ h. (ground arith, to e), λ (h, _). ground arith)
      | inr e ↦ rw e (λ h. ground arith, λ (_, h). cc (from h))
    ]

pub limit_iff :
    (field : String) (n limit : ℕ) → (ensure_collection_limit field n limit ≡ ok tt) ↔ (n ≤ limit)
unfolding ensure_collection_limit
limit_iff field n limit = ground arith

module _ (d : ValidatedTrustGrantDocument) (at : Instant) where
  Fits-iff :
      (ids : List TransitionId) (previous t : OwnershipTransitionRecord)
      → Fits d at (after ids previous) t
        ↔ (Stands d at t × Follows previous t × All (λ id. ¬ (id ≡ t.lineage.transition_id)) ids)
  Fits-iff ids previous t =
      let (series, series') =
        eqb_iff t.lineage.transition_series_id previous.lineage.transition_series_id in
      let (revision, revision') =
        revision_iff previous.lineage.revision.get t.lineage.revision.get
          previous.lineage.transition_id t.lineage.supersedes_transition_id in
      let (order, order') = leb_iff previous.effective_at t.effective_at in
      (
        λ f.
            let (newer, supersedes) = revision f.revision in
            (
              f.stands,
              record {
                hands_over = f.hands_over;
                one_series = series f.series;
                newer = newer;
                supersedes = supersedes;
                not_earlier = order f.order;
              },
              f.fresh,
            ),
        λ (s, f, fresh). record {
          stands = s;
          fresh = fresh;
          series = series' f.one_series;
          revision = revision' (f.newer, f.supersedes);
          hands_over = f.hands_over;
          order = order' f.not_earlier;
        },
      )

  -- The identifiers of the transitions so far, the last first.
  abbrev ids_to : List TransitionId → List OwnershipTransitionRecord → List TransitionId
  ids_to ids [] = ids
  ids_to ids (t ∷ ts) = ids_to (t.lineage.transition_id ∷ ids) ts

  accept_all_iff :
      (ids : List TransitionId) (previous : OwnershipTransitionRecord)
      (ts : List OwnershipTransitionRecord) (p : Progress)
      → (accept_all d at (after ids previous) ts ≡ ok p)
        ↔ (ChainFrom d at ids previous ts × (p ≡ after (ids_to ids ts) (last previous ts)))
  unfolding accept_all
  accept_all_iff ids previous [] p =
      let (to, from) = ok_iff {E = TrustGrantError} (after ids previous) p in
      (λ h. (tt, to h), λ (_, e). from e)
  accept_all_iff ids previous (t ∷ ts) p =
      let (f, f') = Fits-iff ids previous t in
      let (rest, rest') = accept_all_iff (t.lineage.transition_id ∷ ids) t ts p in
      (
        λ h.
            let (q, one, h₁) = >>=-eq-ok (accept d at (after ids previous) t) _ h in
            let (fits, e) = (accept_iff d at (after ids previous) q t).0 one in
            let (chain, e') = rest (rw e at h₁) in ((f fits, chain), e'),
        λ ((here, chain), e').
            let one =
              (accept_iff d at (after ids previous) (after (t.lineage.transition_id ∷ ids) t) t).1
                (f' here, refl) in
            rw one (rest' (chain, e')),
      )

  abbrev verdict :
      OwnershipTransitionRecord → List OwnershipTransitionRecord → OwnershipVerificationRecord
  verdict t ts = record {
    origin_authority = d.ownership_authority_state.origin_authority;
    active_owning_authority = (last t ts).parties.successor_authority;
    checked_at = at;
    proof_kind = transition_chain;
    transition_chain_tip = some (last t ts).lineage.transition_id;
  }

  first_iff :
      (t : OwnershipTransitionRecord)
      → Fits d at (initial_progress d.ownership_authority_state.origin_authority) t ↔ (
          Stands d at t
          × (t.lineage.revision.get ≡ 1)
          × (t.parties.predecessor_authority ≡ d.ownership_authority_state.origin_authority))
  first_iff t =
      let (one, one') = eqb_iff t.lineage.revision.get 1 in
      (
        λ f. (f.stands, one f.revision, f.hands_over),
        λ (s, r, o). record {
          stands = s;
          fresh = tt;
          series = refl;
          revision = one' r;
          hands_over = o;
          order = refl;
        },
      )

  verify_chain_iff :
      (t : OwnershipTransitionRecord) (ts : List OwnershipTransitionRecord)
      (r : OwnershipVerificationRecord)
      → (verify_chain d at (t ∷ ts) ≡ ok r) ↔ (IsChain d at t ts × (r ≡ verdict t ts))
  unfolding verify_chain accept_all
  verify_chain_iff t ts r =
      let start = initial_progress d.ownership_authority_state.origin_authority in
      let (first, first') = first_iff t in
      let (owner, owner') =
        same_authority_iff (last t ts).parties.successor_authority
          d.ownership_authority_state.active_owning_authority in
      let end = after (ids_to (t.lineage.transition_id ∷ []) ts) (last t ts) in
      (
        λ h.
            let (p, all, h₁) = >>=-eq-ok (accept_all d at start (t ∷ ts)) _ h in
            let (q, one, rest) = >>=-eq-ok (accept d at start t) _ all in
            let (fits, e) = (accept_iff d at start q t).0 one in
            let (chain, e') =
              (accept_all_iff (t.lineage.transition_id ∷ []) t ts p).0 (rw e at rest) in
            let h₂ = rw e' at h₁ in
            let (g, o) =
              guard_decides
                ((last t ts).parties.successor_authority
                  == d.ownership_authority_state.active_owning_authority)
                ownership_transition_active_owner_mismatch (ok (verdict t ts)) r (owner, owner') in
            let (active, done) = g h₂ in
            let (s, revision, origin) = first fits in
            (
              record {
                stands = s;
                first_revision = revision;
                from_origin = origin;
                chained = chain;
                to_active = active;
              },
              (ok_iff {E = TrustGrantError} (verdict t ts) r).0 done,
            ),
        λ (c, e).
            let one =
              (accept_iff d at start (after (t.lineage.transition_id ∷ []) t) t).1
                (first' (c.stands, c.first_revision, c.from_origin), refl) in
            let rest =
              (accept_all_iff (t.lineage.transition_id ∷ []) t ts end).1 (c.chained, refl) in
            rw (one, rest, owner' c.to_active, e) refl,
      )

  -- The verdict on a list of transitions, and what it takes.
  abbrev pub IsVerified : List OwnershipTransitionRecord → OwnershipVerificationRecord → Type 0
  IsVerified [] r =
      (d.ownership_authority_state.origin_authority
        ≡ d.ownership_authority_state.active_owning_authority)
      × (r ≡ record {
        origin_authority = d.ownership_authority_state.origin_authority;
        active_owning_authority = d.ownership_authority_state.active_owning_authority;
        checked_at = at;
        proof_kind = static_owner;
        transition_chain_tip = none;
      })
  IsVerified (t ∷ ts) r = IsChain d at t ts × (r ≡ verdict t ts)

  IsVerified-iff :
      (ts : List OwnershipTransitionRecord) (r : OwnershipVerificationRecord)
      → ((if is_empty ts then verify_static_owner d at else verify_chain d at ts) ≡ ok r)
        ↔ IsVerified ts r
  unfolding verify_static_owner
  IsVerified-iff [] r =
      let state = d.ownership_authority_state in
      let (to, from) =
        guard_decides (state.origin_authority == state.active_owning_authority)
          missing_ownership_transition_chain (ok (static_verdict)) r
          (same_authority_iff state.origin_authority state.active_owning_authority) in
      let (out, back) = ok_iff {E = TrustGrantError} static_verdict r in
      (λ h. let (e, h') = to h in (e, out h'), λ (e, h). from (e, back h))
    where
      static_verdict : OwnershipVerificationRecord
      static_verdict = record {
        origin_authority = d.ownership_authority_state.origin_authority;
        active_owning_authority = d.ownership_authority_state.active_owning_authority;
        checked_at = at;
        proof_kind = static_owner;
        transition_chain_tip = none;
      }
  IsVerified-iff (t ∷ ts) r = verify_chain_iff t ts r

  -- A document's ownership is verified by a list of transitions exactly when the list is not longer
  -- than the limit, and is either empty, while the origin is the active owner, or a valid chain from
  -- the origin to the active owner; the verdict names that owner and the last transition.
  pub verify_document_ownership_iff :
      (ts : List OwnershipTransitionRecord) (r : OwnershipVerificationRecord)
      → (verify_document_ownership d at ts ≡ ok r)
        ↔ ((length ts ≤ max_ownership_chain_length) × IsVerified ts r)
  unfolding verify_document_ownership
  verify_document_ownership_iff ts r =
      let (both, both') =
        check_iff
          (ensure_collection_limit "ownership_transition.chain" (length ts)
            max_ownership_chain_length)
          (if is_empty ts then verify_static_owner d at else verify_chain d at ts) r in
      let (size, size') =
        limit_iff "ownership_transition.chain" (length ts) max_ownership_chain_length in
      let (to, from) = IsVerified-iff ts r in
      (λ h. let (a, b) = both h in (size a, to b), λ (a, b). both' (size' a, from b))
