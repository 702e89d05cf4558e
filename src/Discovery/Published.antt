-- ===== src/Discovery/Published.antt =====
-- source_document.rs: which keys a document publishes, and which it resolves.
use mathlib.Core.List.{map}
use trustgrant.Prelude.{
  true, false, not, none, some, List, [], ◌∷◌, ◌≡◌, ◌↔◌, inl, inr, refl, sym, ap, ◌∙◌, ok,
  >>=-eq-ok, ok_iff, check_iff, Bool-cases, Option-cases, ◌==◌, any, none_iff, find_iff, All, Some,
  Distinct, First, All-map, length,
}
use trustgrant.Prelude.Text.{Text}
use trustgrant.Errors.Kinds.{TrustGrantError, duplicate_key_id, discovery_authority_mismatch}
use trustgrant.Errors.Limits.{ensure_collection_limit, max_discovery_keys}
use trustgrant.Domain.Names.{KeyId, key_id_eq}
use trustgrant.Domain.Authority.{AuthorityId, authority_id_eq, same_authority_iff, new_authority_id}
use trustgrant.Ownership.Validity.{guard_decides}
use trustgrant.Discovery.{
  AuthorityKeyRecord, new_authority_key_record, ResolvedSignerBinding, new_delegated_principal_ref,
}
use trustgrant.Discovery.Source.{
  RawKeyRecordLike, RawDelegatedKeyRecord, RawDelegatedPrincipalKeyDocument,
  DelegatedPrincipalKeyDocument, AuthorityDiscoveryDocument, find_key, resolve_root_signer_binding,
}
use trustgrant.Discovery.Read.{
  from_delegated_key, collect_unique_from, collect_unique_key_records, unrevoked,
  delegated_try_from,
}

-- The record that a raw key gives.
abbrev pub Gives : RawKeyRecordLike → AuthorityKeyRecord → Type 0
Gives raw r =
    new_authority_key_record raw.key_id raw.algorithm raw.public_key raw.not_before raw.not_after
    ≡ ok r

abbrev pub ids_of : List AuthorityKeyRecord → List KeyId
ids_of [] = []
ids_of (r ∷ rs) = r.key_id ∷ ids_of rs

-- New keys, no two with one identifier, and each from one of the raw ones.
pub record Collected (seen : List KeyId) (raws : List RawKeyRecordLike)
    (keys : List AuthorityKeyRecord) : Type 0 where
  pub fresh : All (λ id. All (λ s. ¬ (s ≡ id)) seen) (ids_of keys)
  pub distinct : Distinct (ids_of keys)
  pub from_raw : All (λ r. Some (λ raw. Gives raw r) raws) keys

fresh_lem :
    (seen : List KeyId) (id : KeyId)
    → not (any (λ s. s == id) seen) ≡ true
    → All (λ s. ¬ (s ≡ id)) seen
fresh_lem seen id h = elim (Bool-cases (any (λ s. s == id) seen)) [
  | inl e ↦ cc (rw e at h)
  | inr e ↦ (none_iff (λ s. s ≡ id) (λ s. s == id) (λ s. key_id_eq.beq_iff s id) seen).0 e
]

collect-Collected :
    (seen : List KeyId) (raws : List RawKeyRecordLike) (keys : List AuthorityKeyRecord)
    → collect_unique_from seen raws ≡ ok keys
    → Collected seen raws keys
unfolding collect_unique_from
collect-Collected seen [] keys h =
    rw ((ok_iff {E = TrustGrantError} [] keys).0 h)
      (record { fresh = tt; distinct = tt; from_raw = tt })
collect-Collected seen (raw ∷ raws) keys h =
    let (r, given, h₁) =
      >>=-eq-ok
        (new_authority_key_record raw.key_id raw.algorithm raw.public_key raw.not_before
          raw.not_after)
        _ h in
    let (new, h₂) =
      (guard_decides (not (any (λ s. s == r.key_id) seen)) duplicate_key_id _ keys
          ((λ x. x), (λ x. x))).0
        h₁ in
    let (rest, collected, h₃) = >>=-eq-ok (collect_unique_from (r.key_id ∷ seen) raws) _ h₂ in
    let later = collect-Collected (r.key_id ∷ seen) raws rest collected in
    rw ((ok_iff {E = TrustGrantError} (r ∷ rest) keys).0 h₃) (record {
      fresh = (fresh_lem seen r.key_id new, All-map (λ id (_, old). old) (ids_of rest) later.fresh);
      distinct = (All-map (λ id (other, _). other) (ids_of rest) later.fresh, later.distinct);
      from_raw = (inl given, All-map (λ k s. inr s) rest later.from_raw);
    })

-- Where a filtered and converted key comes from.
unrevoked_lem :
    (r : AuthorityKeyRecord) (raws : List RawDelegatedKeyRecord)
    → Some (λ raw. Gives raw r) (map from_delegated_key (unrevoked raws))
    → Some (λ raw. (raw.revoked ≡ false) × Gives (from_delegated_key raw) r) raws
unfolding unrevoked
unrevoked_lem r [] s = elim s [ ]
unrevoked_lem r (raw ∷ raws) s = elim (Bool-cases raw.revoked) [
  | inl e ↦ inr (unrevoked_lem r raws (rw e at s))
  | inr e ↦ elim (rw e at s) [
    | inl here ↦ inl (e, here)
    | inr later ↦ inr (unrevoked_lem r raws later)
  ]
]

-- What a document of a principal's keys is read from.
pub record IsPublished (raw : RawDelegatedPrincipalKeyDocument) (d : DelegatedPrincipalKeyDocument)
    : Type 0 where
  pub distinct : Distinct (ids_of d.keys)
  pub unrevoked :
      All
        (λ r. Some (λ key. (key.revoked ≡ false) × Gives (from_delegated_key key) r) raw.keys)
        d.keys

-- A document of a principal's keys that is read has no two keys with one identifier, and each of its
-- keys comes from one that is not revoked.
pub delegated_try_from-IsPublished :
    (to_lowercase : Text → Text) (raw : RawDelegatedPrincipalKeyDocument)
    (d : DelegatedPrincipalKeyDocument)
    → delegated_try_from to_lowercase raw ≡ ok d
    → IsPublished raw d
unfolding delegated_try_from collect_unique_key_records
delegated_try_from-IsPublished to_lowercase raw d h =
    let (_, h₁) =
      (check_iff
          (ensure_collection_limit "delegated_principal.keys" (length raw.keys) max_discovery_keys)
          _ d).0
        h in
    let (authority, _, h₂) = >>=-eq-ok (new_authority_id to_lowercase raw.authority_id) _ h₁ in
    let (principal, _, h₃) =
      >>=-eq-ok (new_delegated_principal_ref raw.principal.kind raw.principal.id) _ h₂ in
    let (keys, collected, h₄) =
      >>=-eq-ok (collect_unique_from [] (map from_delegated_key (unrevoked raw.keys))) _ h₃ in
    let c = collect-Collected [] (map from_delegated_key (unrevoked raw.keys)) keys collected in
    rw ((ok_iff {E = TrustGrantError} _ d).0 h₄) (record {
      distinct = c.distinct;
      unrevoked = All-map (λ r s. unrevoked_lem r raw.keys s) keys c.from_raw;
    })

-- The signer that a document gives for a key.
pub record IsRootSigner (d : AuthorityDiscoveryDocument) (issuer : AuthorityId) (key : KeyId)
    (b : ResolvedSignerBinding) : Type 0 where
  pub issuer_of : (d.authority_id ≡ issuer) × (b.issuer_authority ≡ issuer)
  pub key_of : First (λ r. r.key_id ≡ key) d.keys b.key_record
  pub profile_of : b.signature_profile ≡ d.signature_profile
  pub direct : b.delegated_principal ≡ none

find_key_iff :
    (key : KeyId) (keys : List AuthorityKeyRecord) (r : AuthorityKeyRecord)
    → (find_key key keys ≡ some r) ↔ First (λ k. k.key_id ≡ key) keys r
unfolding find_key
find_key_iff key keys r =
    find_iff (λ k. k.key_id ≡ key) (λ k. k.key_id == key) (λ k. key_id_eq.beq_iff k.key_id key) keys
      r

-- An authority's document resolves a key for an issuer exactly to the first of its keys with that
-- identifier, for its own authority and without a principal.
pub resolve_root_signer_binding_iff :
    (d : AuthorityDiscoveryDocument) (issuer : AuthorityId) (key : KeyId)
    (b : ResolvedSignerBinding)
    → (resolve_root_signer_binding d issuer key ≡ ok b) ↔ IsRootSigner d issuer key b
unfolding resolve_root_signer_binding
resolve_root_signer_binding_iff d issuer key b = (
  λ h.
      let (same, h₁) =
        (guard_decides (d.authority_id == issuer) discovery_authority_mismatch _ b
            (same_authority_iff d.authority_id issuer)).0
          h in
      elim (Option-cases (find_key key d.keys)) [
        | inl e ↦ cc (rw e at h₁)
        | inr (r, e) ↦
            let made = (ok_iff {E = TrustGrantError} _ b).0 (rw e at h₁) in
            rw made (record {
              issuer_of = (same, same);
              key_of = (find_key_iff key d.keys r).0 e;
              profile_of = refl;
              direct = refl;
            })
      ],
  λ s.
      rw
        (
          (same_authority_iff d.authority_id issuer).1 s.issuer_of.0,
          (find_key_iff key d.keys b.key_record).1 s.key_of,
        )
        (ap ok (λ i. record {
          issuer_authority = (s.issuer_of.0 ∙ sym s.issuer_of.1) i;
          key_record = b.key_record;
          signature_profile = sym s.profile_of i;
          delegated_principal = sym s.direct i;
        })),
)
