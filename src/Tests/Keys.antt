-- ===== src/Tests/Keys.antt =====
-- The documents that publish keys.
use trustgrant.Prelude.{Bool, true, false, none, [], ◌∷◌, ◌≡◌, refl, ok, err}
use trustgrant.Prelude.Text.{Text, codes, map_chars, ascii_lower}
use trustgrant.Errors.Kinds.{missing_signing_key}
use trustgrant.Domain.Authority.{AuthorityId}
use trustgrant.Discovery.{AuthorityKeyRecord}
use trustgrant.Discovery.Source.{
  AuthorityDiscoveryDocument, resolve_root_signer_binding, DelegatedPrincipalKeyDocument,
  RawDelegatedPrincipalKeyDocument, RawDelegatedKeyRecord,
}
use trustgrant.Discovery.Read.{delegated_try_from}
use trustgrant.Discovery.Published.{
  IsPublished, delegated_try_from-IsPublished, IsRootSigner, resolve_root_signer_binding_iff,
}
use trustgrant.Tests.Fixture.{studio, shop}
use trustgrant.Tests.Documents.{lower}
use trustgrant.Tests.Transitions.{binding}

abbrev key_named : Text → AuthorityKeyRecord
key_named name = record {
  key_id = record { as_str = name };
  algorithm = record { as_str = codes "ed25519" };
  public_key = record { as_str = codes "public" };
  not_before = 0;
  not_after = 1000;
}

abbrev pub keys_of : AuthorityId → AuthorityDiscoveryDocument
keys_of authority = record {
  authority_id = authority;
  keys = key_named (codes "old") ∷ key_named (codes "key") ∷ [];
  signature_profile = record {
    format = record { as_str = codes "jws" };
    canonicalization = record { as_str = codes "RFC8785" };
  };
  revocation_policy = none;
  revocation_endpoints = [];
  issued_at = 3;
  delegation = none;
}

root_test :
    resolve_root_signer_binding (keys_of studio) studio (record { as_str = codes "key" })
    ≡ ok (binding studio)
unfolding resolve_root_signer_binding
root_test = refl

missing_key_test :
    resolve_root_signer_binding (keys_of studio) studio (record { as_str = codes "lost" })
    ≡ err missing_signing_key
unfolding resolve_root_signer_binding
missing_key_test = refl

resolve_root_signer_binding_iff_example :
    IsRootSigner (keys_of studio) studio (record { as_str = codes "key" }) (binding studio)
resolve_root_signer_binding_iff_example =
    (resolve_root_signer_binding_iff (keys_of studio) studio (record { as_str = codes "key" })
        (binding studio)).0
      root_test

abbrev raw_key : Text → Bool → RawDelegatedKeyRecord
raw_key name revoked = record {
  key_id = name;
  algorithm = codes "ed25519";
  public_key = codes "public";
  not_before = 0;
  not_after = 1000;
  revoked = revoked;
}

-- A clerk of the shop with two keys, of which one is revoked.
abbrev raw_clerk : RawDelegatedPrincipalKeyDocument
raw_clerk = record {
  authority_id = codes "https://shop";
  principal = record { kind = codes "clerk"; id = codes "ann" };
  keys = raw_key (codes "old") true ∷ raw_key (codes "key") false ∷ [];
}

abbrev pub clerk : DelegatedPrincipalKeyDocument
clerk = record {
  authority_id = shop;
  principal = record {
    kind = record { as_str = codes "clerk" };
    id = record { as_str = codes "ann" };
  };
  keys = key_named (codes "key") ∷ [];
}

clerk_test : delegated_try_from lower raw_clerk ≡ ok clerk
unfolding delegated_try_from map_chars ascii_lower
clerk_test = refl

delegated_try_from-IsPublished_example : IsPublished raw_clerk clerk
delegated_try_from-IsPublished_example =
    delegated_try_from-IsPublished lower raw_clerk clerk clerk_test
