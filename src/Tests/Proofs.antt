-- ===== src/Tests/Proofs.antt =====
-- A proof that a grant is not revoked, and a bundle that carries it.
use trustgrant.Prelude.{ℕ, ◌+◌, Option, some, [], ◌∷◌, ◌≡◌, refl, ok, err, arith}
use trustgrant.Errors.Kinds.{conflicting_proof_bundle_entry}
use trustgrant.Domain.Ownership.{Instant}
use trustgrant.Revocation.{active, revoked, api, finalized, RevocationRecord}
use trustgrant.Revocation.Proof.{RevocationStatusProof, RevocationFreshnessPolicy}
use trustgrant.Revocation.Windows.{nanoseconds}
use trustgrant.Verify.Bundle.Proof.{BundleRevocationProof}
use trustgrant.Verify.Bundle.Store.{TrustGrantProofBundle, new_bundle, delegated_document_count}
use trustgrant.Verify.Bundle.Laws.{
  revocation_proof, delegated_document, apply_insertion, view, updated, SameView,
}
use trustgrant.Verify.Bundle.Refinement.{apply_insertion-SameView}
use trustgrant.Verify.Bundle.Bounds.{IsWithinLimits, apply_insertion-IsWithinLimits}
use trustgrant.Tests.Fixture.{shop}
use trustgrant.Tests.Keys.{clerk}

abbrev add_seconds : Instant → ℕ → Option Instant
add_seconds at seconds = some (at + nanoseconds seconds)

abbrev not_revoked : RevocationStatusProof
not_revoked = record { trustgrant_id = 7; status = active; checked_at = 10 }

abbrev policy : RevocationFreshnessPolicy
policy = record { non_revoked_ttl_seconds = 2; max_stale_seconds = 60 }

abbrev proven : RevocationRecord
proven = record {
  status = active;
  source_kind = api;
  finality = finalized;
  checked_at = 10;
  fresh_until = 2000000010;
}

abbrev bundled : BundleRevocationProof
bundled = record {
  proof = not_revoked;
  source_kind = api;
  finality = finalized;
  freshness_policy = policy;
}

abbrev with_proof : TrustGrantProofBundle
with_proof = record new_bundle { revocation_proofs = (7, bundled) ∷ [] }

abbrev with_clerk : TrustGrantProofBundle
with_clerk = record with_proof {
  delegated_documents = (shop, (clerk.principal.kind, (clerk.principal.id, clerk) ∷ []) ∷ []) ∷ [];
}

insert_test : apply_insertion (delegated_document clerk) with_proof ≡ ok with_clerk
unfolding apply_insertion
insert_test = refl

same_test : apply_insertion (revocation_proof bundled) with_clerk ≡ ok with_clerk
unfolding apply_insertion
same_test = refl

conflict_test :
    apply_insertion
      (revocation_proof (record bundled {
        proof = record { trustgrant_id = 7; status = revoked; checked_at = 10 };
      }))
      with_clerk
    ≡ err (conflicting_proof_bundle_entry "revocation_proof")
unfolding apply_insertion
conflict_test = refl

apply_insertion-SameView_example :
    SameView (view with_clerk) (updated (delegated_document clerk) (view with_proof))
apply_insertion-SameView_example =
    apply_insertion-SameView (delegated_document clerk) with_proof with_clerk insert_test

with_proof-IsWithinLimits : IsWithinLimits with_proof
unfolding delegated_document_count
with_proof-IsWithinLimits = record {
  discovery = omega arith;
  delegated = omega arith;
  revocation = omega arith;
  chains = omega arith;
  short = tt;
}

apply_insertion-IsWithinLimits_example : IsWithinLimits with_clerk
apply_insertion-IsWithinLimits_example =
    apply_insertion-IsWithinLimits with_proof with_clerk with_proof-IsWithinLimits
      (delegated_document clerk) insert_test
