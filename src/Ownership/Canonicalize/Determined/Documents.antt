-- ===== src/Ownership/Canonicalize/Determined/Documents.antt =====
-- canonicalize.rs: what the parties to a transition sign is determined by its bytes.
use trustgrant.Prelude.{[], ◌≡◌, ◌↔◌, refl, sym, ap, ◌∙◌, ok}
use trustgrant.Domain.Canonicalization.{rfc8785}
use trustgrant.Document.Transition.Raw.{RawOwnershipTransitionDocument}
use trustgrant.Canonical.Writer.{Bytes, Formats, write_bytes}
use trustgrant.Canonical.Unique.{Splits, map-Splits, after-Apart, ◌comma◌, object, Splits-same}
use trustgrant.Canonical.Values.{IsFaithful}
use trustgrant.Canonical.Determined.{
  write_u64_field-Apart, write_json_string_field-Apart, write_datetime_field-Apart,
  write_optional_string_field-Apart,
}
use trustgrant.Ownership.Canonicalize.Documents.{
  write_transition_proposal, write_transition_acceptance, canonicalize_transition_proposal,
  canonicalize_transition_acceptance,
}
use trustgrant.Ownership.Canonicalize.Determined.Parts.{
  unsigned, write_resource_scope_field-Apart, write_global_constraints_field-Apart,
  write_signature_field-Apart, write_acceptance_field-Apart,
}

-- A transition without its successor's signature, which the successor makes last.
abbrev pub accepted_part : RawOwnershipTransitionDocument → RawOwnershipTransitionDocument
accepted_part d = record {
  transition_id = d.transition_id;
  version = d.version;
  transition_series_id = d.transition_series_id;
  revision = d.revision;
  supersedes_transition_id = d.supersedes_transition_id;
  origin_authority = d.origin_authority;
  from_authority = d.from_authority;
  to_authority = d.to_authority;
  canonical_resource_scope = d.canonical_resource_scope;
  global_constraints = d.global_constraints;
  effective_at = d.effective_at;
  predecessor_signature = d.predecessor_signature;
  successor_acceptance = unsigned d.successor_acceptance;
}

-- A transition without what its parties add when they sign.
abbrev pub proposed_part : RawOwnershipTransitionDocument → RawOwnershipTransitionDocument
proposed_part d = record {
  transition_id = d.transition_id;
  version = d.version;
  transition_series_id = d.transition_series_id;
  revision = d.revision;
  supersedes_transition_id = d.supersedes_transition_id;
  origin_authority = d.origin_authority;
  from_authority = d.from_authority;
  to_authority = d.to_authority;
  canonical_resource_scope = d.canonical_resource_scope;
  global_constraints = d.global_constraints;
  effective_at = d.effective_at;
  predecessor_signature = record { key_id = []; signature = [] };
  successor_acceptance = record { accepted_at = 0; key_id = []; signature = [] };
}

module _ (formats : Formats) (f : IsFaithful formats) where
  write_transition_proposal-Splits :
      (a b : RawOwnershipTransitionDocument)
      → Splits
          (write_transition_proposal formats a)
          (write_transition_proposal formats b)
          (proposed_part a ≡ proposed_part b)
  unfolding write_transition_proposal
  write_transition_proposal-Splits a b =
      map-Splits
        (λ (
          (
            (
              (
                (
                  (
                    (
                      (
                        ((canonical_resource_scope', effective_at'), from_authority'),
                        global_constraints',
                      ),
                      origin_authority',
                    ),
                    revision',
                  ),
                  supersedes_transition_id',
                ),
                to_authority',
              ),
              transition_id',
            ),
            transition_series_id',
          ),
          version',
        ).
          λ i. record {
            transition_id = transition_id' i;
            version = version' i;
            transition_series_id = transition_series_id' i;
            revision = revision' i;
            supersedes_transition_id = supersedes_transition_id' i;
            origin_authority = origin_authority' i;
            from_authority = from_authority' i;
            to_authority = to_authority' i;
            canonical_resource_scope = canonical_resource_scope' i;
            global_constraints = global_constraints' i;
            effective_at = effective_at' i;
            predecessor_signature = record { key_id = []; signature = [] };
            successor_acceptance = record { accepted_at = 0; key_id = []; signature = [] };
          })
        (object (
          after-Apart (write_bytes "{") (
            write_resource_scope_field-Apart formats f "canonical_resource_scope"
              a.canonical_resource_scope b.canonical_resource_scope)
          comma write_datetime_field-Apart formats f "effective_at" a.effective_at b.effective_at
          comma write_json_string_field-Apart formats f "from_authority" a.from_authority
              b.from_authority
          comma write_global_constraints_field-Apart formats f "global_constraints"
              a.global_constraints b.global_constraints
          comma write_json_string_field-Apart formats f "origin_authority" a.origin_authority
              b.origin_authority
          comma write_u64_field-Apart formats f "revision" a.revision b.revision
          comma write_optional_string_field-Apart formats f "supersedes_transition_id"
              a.supersedes_transition_id b.supersedes_transition_id
          comma write_json_string_field-Apart formats f "to_authority" a.to_authority b.to_authority
          comma write_json_string_field-Apart formats f "transition_id" a.transition_id
              b.transition_id
          comma write_json_string_field-Apart formats f "transition_series_id"
              a.transition_series_id b.transition_series_id
          comma write_u64_field-Apart formats f "version" a.version b.version))

  write_transition_proposal_part :
      (a : RawOwnershipTransitionDocument)
      → write_transition_proposal formats a ≡ write_transition_proposal formats (proposed_part a)
  unfolding write_transition_proposal
  write_transition_proposal_part a = refl

  write_transition_acceptance-Splits :
      (a b : RawOwnershipTransitionDocument)
      → Splits
          (write_transition_acceptance formats a)
          (write_transition_acceptance formats b)
          (accepted_part a ≡ accepted_part b)
  unfolding write_transition_acceptance
  write_transition_acceptance-Splits a b =
      map-Splits
        (λ (
          (
            (
              (
                (
                  (
                    (
                      (
                        (
                          (
                            ((canonical_resource_scope', effective_at'), from_authority'),
                            global_constraints',
                          ),
                          origin_authority',
                        ),
                        predecessor_signature',
                      ),
                      revision',
                    ),
                    successor_acceptance',
                  ),
                  supersedes_transition_id',
                ),
                to_authority',
              ),
              transition_id',
            ),
            transition_series_id',
          ),
          version',
        ).
          λ i. record {
            transition_id = transition_id' i;
            version = version' i;
            transition_series_id = transition_series_id' i;
            revision = revision' i;
            supersedes_transition_id = supersedes_transition_id' i;
            origin_authority = origin_authority' i;
            from_authority = from_authority' i;
            to_authority = to_authority' i;
            canonical_resource_scope = canonical_resource_scope' i;
            global_constraints = global_constraints' i;
            effective_at = effective_at' i;
            predecessor_signature = predecessor_signature' i;
            successor_acceptance = successor_acceptance' i;
          })
        (object (
          after-Apart (write_bytes "{") (
            write_resource_scope_field-Apart formats f "canonical_resource_scope"
              a.canonical_resource_scope b.canonical_resource_scope)
          comma write_datetime_field-Apart formats f "effective_at" a.effective_at b.effective_at
          comma write_json_string_field-Apart formats f "from_authority" a.from_authority
              b.from_authority
          comma write_global_constraints_field-Apart formats f "global_constraints"
              a.global_constraints b.global_constraints
          comma write_json_string_field-Apart formats f "origin_authority" a.origin_authority
              b.origin_authority
          comma write_signature_field-Apart formats f "predecessor_signature"
              a.predecessor_signature b.predecessor_signature
          comma write_u64_field-Apart formats f "revision" a.revision b.revision
          comma write_acceptance_field-Apart formats f "successor_acceptance" a.successor_acceptance
              b.successor_acceptance
          comma write_optional_string_field-Apart formats f "supersedes_transition_id"
              a.supersedes_transition_id b.supersedes_transition_id
          comma write_json_string_field-Apart formats f "to_authority" a.to_authority b.to_authority
          comma write_json_string_field-Apart formats f "transition_id" a.transition_id
              b.transition_id
          comma write_json_string_field-Apart formats f "transition_series_id"
              a.transition_series_id b.transition_series_id
          comma write_u64_field-Apart formats f "version" a.version b.version))

  write_transition_acceptance_part :
      (a : RawOwnershipTransitionDocument)
      → write_transition_acceptance formats a
        ≡ write_transition_acceptance formats (accepted_part a)
  unfolding write_transition_acceptance
  write_transition_acceptance_part a = refl

  -- Where strings, numbers and dates are written faithfully, a transition gives its predecessor the
  -- same bytes to sign as another one exactly when the two agree in all but what the parties add.
  pub canonicalize_transition_proposal_iff :
      (a b : RawOwnershipTransitionDocument) (bytes : Bytes)
      → canonicalize_transition_proposal formats a rfc8785 ≡ ok bytes
      → (canonicalize_transition_proposal formats b rfc8785 ≡ ok bytes)
        ↔ (proposed_part a ≡ proposed_part b)
  unfolding canonicalize_transition_proposal
  canonicalize_transition_proposal_iff a b bytes h = (
    λ h'. Splits-same (write_transition_proposal-Splits a b) bytes h h',
    λ e.
        write_transition_proposal_part b
        ∙ ap (write_transition_proposal formats) (sym e)
        ∙ sym (write_transition_proposal_part a)
        ∙ h,
  )

  -- Where strings, numbers and dates are written faithfully, a transition gives its successor the same
  -- bytes to sign as another one exactly when the two agree in all but the successor's signature:
  -- what the successor accepts includes the predecessor's signature and the time of acceptance.
  pub canonicalize_transition_acceptance_iff :
      (a b : RawOwnershipTransitionDocument) (bytes : Bytes)
      → canonicalize_transition_acceptance formats a rfc8785 ≡ ok bytes
      → (canonicalize_transition_acceptance formats b rfc8785 ≡ ok bytes)
        ↔ (accepted_part a ≡ accepted_part b)
  unfolding canonicalize_transition_acceptance
  canonicalize_transition_acceptance_iff a b bytes h = (
    λ h'. Splits-same (write_transition_acceptance-Splits a b) bytes h h',
    λ e.
        write_transition_acceptance_part b
        ∙ ap (write_transition_acceptance formats) (sym e)
        ∙ sym (write_transition_acceptance_part a)
        ∙ h,
  )
