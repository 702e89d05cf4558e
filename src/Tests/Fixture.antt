-- ===== src/Tests/Fixture.antt =====
-- A grant that lets its holder mint three items in all, two for a player, until time 100.
use trustgrant.Prelude.{true, false, none, some, [], ◌∷◌}
use trustgrant.Prelude.Text.{codes}
use trustgrant.Domain.Names.{SelectorKind, other, ResourceTypeName}
use trustgrant.Domain.Authority.{AuthorityId, https}
use trustgrant.Domain.Lineage.{coexist}
use trustgrant.Domain.Ownership.{static_owner}
use trustgrant.Revocation.{checked, active, api, finalized}
use trustgrant.Document.Model.{
  ValidatedScope, ValidatedResourceType, ValidatedSelector, ValidatedTrustGrantDocument,
}
use trustgrant.Verify.Grant.{VerifiedTrustGrant, normalize}
use trustgrant.Ports.{online}

abbrev pub studio : AuthorityId
studio = record { value = codes "https://studio"; scheme_end = 5; scheme = https }

abbrev pub shop : AuthorityId
shop = record { value = codes "https://shop"; scheme_end = 5; scheme = https }

abbrev pub item : ResourceTypeName
item = record { as_str = codes "item" }

abbrev pub edition : SelectorKind
edition = record { classification = other; value = codes "edition" }

abbrev pub first_edition : ValidatedSelector
first_edition = record {
  kind = edition;
  all = false;
  values = codes "first" ∷ [];
  expressions = [];
}

abbrev everything : ValidatedScope
everything = record { all = true; allow = []; deny = [] }

abbrev pub items : ValidatedResourceType
items = record {
  all = false;
  allow = first_edition ∷ [];
  deny = [];
  capabilities = record { recognize = none; mint = some true };
  constraints = record {
    minting = record { max_total = some 3; max_per_user = some 2 };
    audience_scope = [];
  };
  operations = some (record {
    allow = record { as_str = codes "create" } ∷ record { as_str = codes "recognize" } ∷ [];
    deny = [];
  });
}

-- The studio made the items, and `owner` owns them.
abbrev pub document : AuthorityId → ValidatedTrustGrantDocument
document owner = record {
  lineage = record {
    trustgrant_id = 7;
    grant_series_id = 3;
    revision = record { get = 1 };
    supersedes = none;
    supersession_policy = coexist;
  };
  issuer_authority = owner;
  ownership_authority_state = record { origin_authority = studio; active_owning_authority = owner };
  key_id = record { as_str = codes "key" };
  target_scope = everything;
  capabilities = record { recognize = true; mint = false };
  default_audience_scope = [];
  resource_scope = (item, items) ∷ [];
  global_time_window = some (record { not_before = 10; not_after = 100 });
  revocation = none;
  issued_at = 5;
  signature = codes "signature";
  issuer_principal = none;
  interoperability_profile = none;
}

unfoldable pub grant : VerifiedTrustGrant
unfolding normalize
grant = record {
  document = normalize (document studio);
  metadata = record {
    verified_at = 10;
    posture = online;
    signer_binding = record {
      issuer_authority = studio;
      key_record = record {
        key_id = record { as_str = codes "key" };
        algorithm = record { as_str = codes "ed25519" };
        public_key = record { as_str = codes "public" };
        not_before = 0;
        not_after = 1000;
      };
      signature_profile = record {
        format = record { as_str = codes "jws" };
        canonicalization = record { as_str = codes "jcs" };
      };
      delegated_principal = none;
    };
    ownership = record {
      origin_authority = studio;
      active_owning_authority = studio;
      checked_at = 10;
      proof_kind = static_owner;
      transition_chain_tip = none;
    };
    revocation = checked (record {
      status = active;
      source_kind = api;
      finality = finalized;
      checked_at = 10;
      fresh_until = 90;
    });
  };
}
