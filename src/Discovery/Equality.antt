-- ===== src/Discovery/Equality.antt =====
-- The derived `PartialEq` of documents that publish keys, through the tuples of their fields.
use trustgrant.Prelude.{refl, Eq, eq_via, list_eq, option_eq, pair_eq, nat_eq}
use trustgrant.Domain.Names.{key_id_eq, principal_kind_eq, principal_id_eq}
use trustgrant.Domain.Authority.{authority_id_eq}
use trustgrant.Discovery.{
  AlgorithmName, PublicKeyMaterial, SignatureFormat, CanonicalizationName, SignatureProfile,
  AuthorityKeyRecord, DelegatedPrincipalRef,
}
use trustgrant.Discovery.Source.{
  DiscoveryRevocationPolicy, DiscoveryDelegation, AuthorityDiscoveryDocument,
  DelegatedPrincipalKeyDocument,
}

instance abbrev pub algorithm_name_eq : Eq AlgorithmName
algorithm_name_eq = eq_via (λ a. a.as_str) (λ s. record { as_str = s }) (λ a. refl) list_eq

instance abbrev pub public_key_material_eq : Eq PublicKeyMaterial
public_key_material_eq = eq_via (λ a. a.as_str) (λ s. record { as_str = s }) (λ a. refl) list_eq

instance abbrev pub signature_format_eq : Eq SignatureFormat
signature_format_eq = eq_via (λ a. a.as_str) (λ s. record { as_str = s }) (λ a. refl) list_eq

instance abbrev pub canonicalization_name_eq : Eq CanonicalizationName
canonicalization_name_eq = eq_via (λ a. a.as_str) (λ s. record { as_str = s }) (λ a. refl) list_eq

instance abbrev pub signature_profile_eq : Eq SignatureProfile
signature_profile_eq =
    eq_via (λ p. (p.format, p.canonicalization))
      (λ (f, c). record { format = f; canonicalization = c }) (λ p. refl) pair_eq

instance abbrev pub authority_key_record_eq : Eq AuthorityKeyRecord
authority_key_record_eq =
    eq_via (λ r. (r.key_id, (r.algorithm, (r.public_key, (r.not_before, r.not_after)))))
      (λ (k, (a, (p, (b, e)))). record {
        key_id = k;
        algorithm = a;
        public_key = p;
        not_before = b;
        not_after = e;
      })
      (λ r. refl) pair_eq

instance abbrev pub delegated_principal_ref_eq : Eq DelegatedPrincipalRef
delegated_principal_ref_eq =
    eq_via (λ p. (p.kind, p.id)) (λ (k, i). record { kind = k; id = i }) (λ p. refl) pair_eq

instance abbrev pub discovery_revocation_policy_eq : Eq DiscoveryRevocationPolicy
discovery_revocation_policy_eq =
    eq_via (λ p. (p.status_endpoint, (p.non_revoked_ttl_seconds, p.max_stale_seconds)))
      (λ (s, (n, m)). record {
        status_endpoint = s;
        non_revoked_ttl_seconds = n;
        max_stale_seconds = m;
      })
      (λ p. refl) pair_eq

instance abbrev pub discovery_delegation_eq : Eq DiscoveryDelegation
discovery_delegation_eq =
    eq_via (λ d. d.principal_key_endpoint) (λ e. record { principal_key_endpoint = e }) (λ d. refl)
      list_eq

instance abbrev pub authority_discovery_document_eq : Eq AuthorityDiscoveryDocument
authority_discovery_document_eq =
    eq_via
      (λ d. (
        d.authority_id,
        (
          d.keys,
          (
            d.signature_profile,
            (d.revocation_policy, (d.revocation_endpoints, (d.issued_at, d.delegation))),
          ),
        ),
      ))
      (λ (a, (k, (p, (r, (e, (i, g)))))). record {
        authority_id = a;
        keys = k;
        signature_profile = p;
        revocation_policy = r;
        revocation_endpoints = e;
        issued_at = i;
        delegation = g;
      })
      (λ d. refl) pair_eq

instance abbrev pub delegated_principal_key_document_eq : Eq DelegatedPrincipalKeyDocument
delegated_principal_key_document_eq =
    eq_via (λ d. (d.authority_id, (d.principal, d.keys)))
      (λ (a, (p, k)). record { authority_id = a; principal = p; keys = k }) (λ d. refl) pair_eq
