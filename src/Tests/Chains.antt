-- ===== src/Tests/Chains.antt =====
-- A chain of two transitions of ownership, from the studio to a dealer to the shop.
use trustgrant.Prelude.{ℕ, ◌+◌, ◌≤◌, Option, none, some, List, [], ◌∷◌, ◌≡◌, refl, ok, err, length}
use trustgrant.Prelude.Text.{codes}
use trustgrant.Domain.Names.{resource_type_name_eq}
use trustgrant.Domain.Authority.{AuthorityId, https}
use trustgrant.Domain.Ownership.{
  OwnershipTransitionRecord, OwnershipVerificationRecord, OwnershipResourceScope, transition_chain,
}
use trustgrant.Errors.Kinds.{ownership_transition_active_owner_mismatch}
use trustgrant.Errors.Limits.{max_ownership_chain_length}
use trustgrant.Ownership.Chain.{verify_document_ownership, ensure_transition_scope_covers_document}
use trustgrant.Ownership.Coverage.{Covers, ensure_transition_scope_covers_document_iff}
use trustgrant.Ownership.Verdict.{IsVerified, verify_document_ownership_iff}
use trustgrant.Tests.Fixture.{studio, shop, item, items, edition, document}

abbrev dealer : AuthorityId
dealer = record { value = codes "https://dealer"; scheme_end = 5; scheme = https }

abbrev editions : OwnershipResourceScope
editions = record {
  selectors = record { kind = edition; values = codes "zero" ∷ codes "first" ∷ [] } ∷ [];
}

abbrev transition : ℕ → Option ℕ → AuthorityId → AuthorityId → OwnershipTransitionRecord
transition n supersedes from to = record {
  lineage = record {
    transition_id = n;
    transition_series_id = 9;
    revision = record { get = n };
    supersedes_transition_id = supersedes;
  };
  parties = record {
    origin_authority = studio;
    predecessor_authority = from;
    successor_authority = to;
  };
  resource_scope = (item, editions) ∷ [];
  time_window = none;
  effective_at = 10 + n;
}

abbrev chain : List OwnershipTransitionRecord
chain = transition 1 none studio dealer ∷ transition 2 (some 1) dealer shop ∷ []

abbrev verdict_of_chain : OwnershipVerificationRecord
verdict_of_chain = record {
  origin_authority = studio;
  active_owning_authority = shop;
  checked_at = 20;
  proof_kind = transition_chain;
  transition_chain_tip = some 2;
}

chain_test : verify_document_ownership (document shop) 20 chain ≡ ok verdict_of_chain
unfolding verify_document_ownership
chain_test = refl

short_chain_test :
    verify_document_ownership (document shop) 20 (transition 1 none studio dealer ∷ [])
    ≡ err ownership_transition_active_owner_mismatch
unfolding verify_document_ownership
short_chain_test = refl

verify_document_ownership_iff_example :
    (length chain ≤ max_ownership_chain_length)
    × IsVerified (document shop) 20 chain verdict_of_chain
verify_document_ownership_iff_example =
    (verify_document_ownership_iff (document shop) 20 chain verdict_of_chain).0 chain_test

covers_test :
    ensure_transition_scope_covers_document ((item, items) ∷ []) ((item, editions) ∷ []) ≡ ok tt
unfolding ensure_transition_scope_covers_document
covers_test = refl

ensure_transition_scope_covers_document_iff_example :
    Covers ((item, editions) ∷ []) ((item, items) ∷ [])
ensure_transition_scope_covers_document_iff_example =
    (ensure_transition_scope_covers_document_iff ((item, items) ∷ []) ((item, editions) ∷ [])).0
      covers_test
