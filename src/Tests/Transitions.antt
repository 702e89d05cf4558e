-- ===== src/Tests/Transitions.antt =====
-- The studio hands its items over to the shop.
use trustgrant.Prelude.{
  false, none, some, [], ◌∷◌, ◌≡◌, refl, ok, err, guard, ◌==◌, list_eq, nat_eq, eq_list,
}
use trustgrant.Prelude.Text.{codes, map_chars, ascii_lower}
use trustgrant.Errors.Kinds.{
  ownership_transition_successor_signature_failed, signature_verification_failed,
}
use trustgrant.Domain.Ownership.{OwnershipTransitionRecord}
use trustgrant.Domain.Canonicalization.{rfc8785}
use trustgrant.Discovery.{ResolvedSignerBinding}
use trustgrant.Document.Transition.Raw.{RawOwnershipTransitionDocument}
use trustgrant.Canonical.Writer.{Bytes}
use trustgrant.Ports.{VerificationContext, SignatureVerifier, AuthorityDiscoverySource, online}
use trustgrant.Domain.Authority.{AuthorityId}
use trustgrant.Ownership.Canonicalize.Documents.{
  canonicalize_transition_proposal, canonicalize_transition_acceptance,
}
use trustgrant.Ownership.Canonicalize.Determined.Documents.{
  canonicalize_transition_proposal_iff, canonicalize_transition_acceptance_iff,
}
use trustgrant.Ownership.Verify.{VerifiedOwnershipTransition, verify_transition}
use trustgrant.Ownership.Signed.{IsSigned, verify_transition-IsSigned}
use trustgrant.Tests.Fixture.{studio, shop, item, edition}
use trustgrant.Tests.Documents.{lower, parse_length}
use trustgrant.Tests.Writing.{plain, plain-IsFaithful, bytes_of}

abbrev pub handover : RawOwnershipTransitionDocument
handover = record {
  transition_id = codes "tgt_12345";
  version = 0;
  transition_series_id = codes "tgts_123";
  revision = 1;
  supersedes_transition_id = none;
  origin_authority = codes "https://studio";
  from_authority = codes "https://studio";
  to_authority = codes "https://shop";
  canonical_resource_scope = record {
    types =
        (
          codes "item",
          record {
            all = false;
            allow = some (
                record {
                  kind = codes "edition";
                  all = false;
                  values = some (codes "first" ∷ []);
                  expressions = none;
                }
                ∷ []);
            deny = none;
          },
        )
        ∷ [];
  };
  global_constraints = none;
  effective_at = 11;
  predecessor_signature = record { key_id = codes "key"; signature = codes "studio" };
  successor_acceptance = record {
    accepted_at = 12;
    key_id = codes "key";
    signature = codes "shop";
  };
}

abbrev pub binding : AuthorityId → ResolvedSignerBinding
binding authority = record {
  issuer_authority = authority;
  key_record = record {
    key_id = record { as_str = codes "key" };
    algorithm = record { as_str = codes "ed25519" };
    public_key = record { as_str = codes "public" };
    not_before = 0;
    not_after = 1000;
  };
  signature_profile = record {
    format = record { as_str = codes "jws" };
    canonicalization = record { as_str = codes "RFC8785" };
  };
  delegated_principal = none;
}

-- Every authority has one key.
abbrev pub one_key : AuthorityDiscoverySource
one_key = record {
  resolve_signer_binding = λ authority key principal context. ok (binding authority);
}

abbrev pub trusting : SignatureVerifier
trusting = record { verify_signature = λ r. ok tt }

abbrev pub today : VerificationContext
today = record { verified_at = 20; posture = online }

abbrev proposal : Bytes
proposal = bytes_of (canonicalize_transition_proposal plain handover rfc8785)

abbrev acceptance : Bytes
acceptance = bytes_of (canonicalize_transition_acceptance plain handover rfc8785)

proposal_test : canonicalize_transition_proposal plain handover rfc8785 ≡ ok proposal
unfolding canonicalize_transition_proposal
proposal_test = refl

acceptance_test : canonicalize_transition_acceptance plain handover rfc8785 ≡ ok acceptance
unfolding canonicalize_transition_acceptance
acceptance_test = refl

-- The same transition before the shop accepted it, and with another signature of the shop.
abbrev proposed : RawOwnershipTransitionDocument
proposed = record handover {
  successor_acceptance = record { accepted_at = 0; key_id = codes ""; signature = codes "" };
}

abbrev accepted_again : RawOwnershipTransitionDocument
accepted_again = record handover {
  successor_acceptance = record {
    accepted_at = 12;
    key_id = codes "key";
    signature = codes "another";
  };
}

canonicalize_transition_proposal_iff_example :
    canonicalize_transition_proposal plain proposed rfc8785 ≡ ok proposal
canonicalize_transition_proposal_iff_example =
    (canonicalize_transition_proposal_iff plain plain-IsFaithful handover proposed proposal
        proposal_test).1
      refl

canonicalize_transition_acceptance_iff_example :
    canonicalize_transition_acceptance plain accepted_again rfc8785 ≡ ok acceptance
canonicalize_transition_acceptance_iff_example =
    (canonicalize_transition_acceptance_iff plain plain-IsFaithful handover accepted_again
        acceptance acceptance_test).1
      refl

abbrev transferred : OwnershipTransitionRecord
transferred = record {
  lineage = record {
    transition_id = 5;
    transition_series_id = 3;
    revision = record { get = 1 };
    supersedes_transition_id = none;
  };
  parties = record {
    origin_authority = studio;
    predecessor_authority = studio;
    successor_authority = shop;
  };
  resource_scope =
      (item, record { selectors = record { kind = edition; values = codes "first" ∷ [] } ∷ [] })
      ∷ [];
  time_window = none;
  effective_at = 11;
}

abbrev verified : VerifiedOwnershipTransition
verified = record {
  document = record {
    lineage = transferred.lineage;
    parties = transferred.parties;
    resource_scope = transferred.resource_scope;
    time_window = none;
    effective_at = 11;
    predecessor_signature = record {
      key_id = record { as_str = codes "key" };
      signature = codes "studio";
    };
    successor_acceptance = record {
      accepted_at = 12;
      key_id = record { as_str = codes "key" };
      signature = codes "shop";
    };
  };
  metadata = record {
    verified_at = 20;
    posture = online;
    predecessor_signer_binding = binding studio;
    successor_signer_binding = binding shop;
  };
  transition_record = transferred;
}

verified_test :
    verify_transition lower parse_length plain trusting one_key today handover ≡ ok verified
unfolding verify_transition map_chars ascii_lower
verified_test = refl

-- A verifier that trusts only the studio's signatures.
abbrev wary : SignatureVerifier
wary = record {
  verify_signature = λ r. guard (r.signature == codes "studio") signature_verification_failed;
}

wary_test :
    verify_transition lower parse_length plain wary one_key today handover
    ≡ err ownership_transition_successor_signature_failed
unfolding verify_transition map_chars ascii_lower eq_list
wary_test = refl

verify_transition-IsSigned_example :
    IsSigned lower parse_length plain trusting one_key today handover transferred
verify_transition-IsSigned_example =
    verify_transition-IsSigned lower parse_length plain trusting one_key today handover verified
      verified_test
