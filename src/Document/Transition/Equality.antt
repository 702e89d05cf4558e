-- ===== src/Document/Transition/Equality.antt =====
-- The derived `PartialEq` of raw transitions, through the tuples of their fields.
use trustgrant.Prelude.{
  Bool, true, false, refl, ◌≡◌, ◌↔◌, arith, Eq, eq_via, list_eq, option_eq, pair_eq, nat_eq,
}
use trustgrant.Document.Transition.Raw.{
  RawOwnershipTransitionSelector, RawOwnershipTransitionResourceType,
  RawOwnershipTransitionResourceScope, RawOwnershipTransitionTimeWindow,
  RawOwnershipTransitionGlobalConstraints, RawOwnershipTransitionSignature,
  RawOwnershipTransitionAcceptance, RawOwnershipTransitionDocument,
}

abbrev same_bool : Bool → Bool → Bool
same_bool true true = true
same_bool false false = true
same_bool _ _ = false

pub same_bool_iff : (a b : Bool) → (same_bool a b ≡ true) ↔ (a ≡ b)
same_bool_iff a b = ground arith

instance abbrev pub bool_eq : Eq Bool
bool_eq = record { beq = same_bool; beq_iff = same_bool_iff }

instance abbrev pub raw_selector_eq : Eq RawOwnershipTransitionSelector
raw_selector_eq =
    eq_via (λ s. (s.kind, (s.all, (s.values, s.expressions))))
      (λ (k, (a, (v, e))). record { kind = k; all = a; values = v; expressions = e }) (λ s. refl)
      pair_eq

instance abbrev pub raw_resource_type_eq : Eq RawOwnershipTransitionResourceType
raw_resource_type_eq =
    eq_via (λ t. (t.all, (t.allow, t.deny)))
      (λ (a, (w, d)). record { all = a; allow = w; deny = d }) (λ t. refl) pair_eq

instance abbrev pub raw_resource_scope_eq : Eq RawOwnershipTransitionResourceScope
raw_resource_scope_eq = eq_via (λ s. s.types) (λ t. record { types = t }) (λ s. refl) list_eq

instance abbrev pub raw_time_window_eq : Eq RawOwnershipTransitionTimeWindow
raw_time_window_eq =
    eq_via (λ w. (w.not_before, w.not_after)) (λ (b, e). record { not_before = b; not_after = e })
      (λ w. refl) pair_eq

instance abbrev pub raw_global_constraints_eq : Eq RawOwnershipTransitionGlobalConstraints
raw_global_constraints_eq = eq_via (λ c. c.time) (λ t. record { time = t }) (λ c. refl) option_eq

instance abbrev pub raw_signature_eq : Eq RawOwnershipTransitionSignature
raw_signature_eq =
    eq_via (λ s. (s.key_id, s.signature)) (λ (k, s). record { key_id = k; signature = s })
      (λ s. refl) pair_eq

instance abbrev pub raw_acceptance_eq : Eq RawOwnershipTransitionAcceptance
raw_acceptance_eq =
    eq_via (λ s. (s.accepted_at, (s.key_id, s.signature)))
      (λ (a, (k, s)). record { accepted_at = a; key_id = k; signature = s }) (λ s. refl) pair_eq

instance abbrev pub raw_transition_eq : Eq RawOwnershipTransitionDocument
raw_transition_eq =
    eq_via
      (λ d. (
        d.transition_id,
        (
          d.version,
          (
            d.transition_series_id,
            (
              d.revision,
              (
                d.supersedes_transition_id,
                (
                  d.origin_authority,
                  (
                    d.from_authority,
                    (
                      d.to_authority,
                      (
                        d.canonical_resource_scope,
                        (
                          d.global_constraints,
                          (d.effective_at, (d.predecessor_signature, d.successor_acceptance)),
                        ),
                      ),
                    ),
                  ),
                ),
              ),
            ),
          ),
        ),
      ))
      (λ (
        id,
        (
          version,
          (
            series,
            (
              revision,
              (
                supersedes,
                (origin, (from, (to, (scope, (constraints, (at, (signature, acceptance))))))),
              ),
            ),
          ),
        ),
      ).
        record {
          transition_id = id;
          version = version;
          transition_series_id = series;
          revision = revision;
          supersedes_transition_id = supersedes;
          origin_authority = origin;
          from_authority = from;
          to_authority = to;
          canonical_resource_scope = scope;
          global_constraints = constraints;
          effective_at = at;
          predecessor_signature = signature;
          successor_acceptance = acceptance;
        })
      (λ d. refl) pair_eq
