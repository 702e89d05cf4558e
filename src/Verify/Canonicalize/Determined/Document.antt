-- ===== src/Verify/Canonicalize/Determined/Document.antt =====
-- canonicalize.rs: the bytes of a document determine what is signed of it.
use trustgrant.Prelude.{none, [], ◌≡◌, ◌↔◌, refl, sym, ap, ◌∙◌, ok}
use trustgrant.Domain.Canonicalization.{rfc8785}
use trustgrant.Document.Raw.{RawTrustGrantDocument}
use trustgrant.Canonical.Writer.{Bytes, Formats, write_bytes}
use trustgrant.Canonical.Unique.{Splits, map-Splits, after-Apart, ◌comma◌, object, Splits-same}
use trustgrant.Canonical.Values.{IsFaithful}
use trustgrant.Canonical.Determined.{
  write_u64_field-Apart, write_json_string_field-Apart, write_datetime_field-Apart,
  write_optional_string_field-Apart,
}
use trustgrant.Verify.Canonicalize.Document.{write_trustgrant_document, canonicalize_trustgrant}
use trustgrant.Verify.Canonicalize.Determined.Scopes.{
  write_scope_field-Apart, write_capabilities_field-Apart, write_audience_scope_field-Apart,
}
use trustgrant.Verify.Canonicalize.Determined.Types.{write_resource_scope_field-Apart}
use trustgrant.Verify.Canonicalize.Determined.Parts.{
  write_global_constraints_field-Apart, write_revocation_field-Apart, write_principal_field-Apart,
  write_supersession_policy_field-Apart,
}

-- A document without its signature and its interoperability profile, which are not signed.
abbrev pub signed_part : RawTrustGrantDocument → RawTrustGrantDocument
signed_part d = record {
  trustgrant_id = d.trustgrant_id;
  version = d.version;
  grant_series_id = d.grant_series_id;
  revision = d.revision;
  supersedes = d.supersedes;
  supersession_policy = d.supersession_policy;
  issuer_authority = d.issuer_authority;
  origin_authority = d.origin_authority;
  active_owning_authority = d.active_owning_authority;
  key_id = d.key_id;
  target_scope = d.target_scope;
  capabilities = d.capabilities;
  default_audience_scope = d.default_audience_scope;
  resource_scope = d.resource_scope;
  global_constraints = d.global_constraints;
  revocation = d.revocation;
  issued_at = d.issued_at;
  signature = [];
  issuer_principal = d.issuer_principal;
  interoperability_profile = none;
}

module _ (formats : Formats) (f : IsFaithful formats) where
  write_trustgrant_document-Splits :
      (a b : RawTrustGrantDocument)
      → Splits
          (write_trustgrant_document formats a)
          (write_trustgrant_document formats b)
          (signed_part a ≡ signed_part b)
  unfolding write_trustgrant_document
  write_trustgrant_document-Splits a b =
      map-Splits
        (λ (
          (
            (
              (
                (
                  (
                    (
                      (
                        (
                          (
                            (
                              (
                                (
                                  ((((owner, capabilities), audience), constraints), series),
                                  issued,
                                ),
                                issuer,
                              ),
                              principal,
                            ),
                            key,
                          ),
                          origin,
                        ),
                        types,
                      ),
                      revision,
                    ),
                    revocation,
                  ),
                  supersedes,
                ),
                policy,
              ),
              target,
            ),
            id,
          ),
          version,
        ).
          λ i. record {
            trustgrant_id = id i;
            version = version i;
            grant_series_id = series i;
            revision = revision i;
            supersedes = supersedes i;
            supersession_policy = policy i;
            issuer_authority = issuer i;
            origin_authority = origin i;
            active_owning_authority = owner i;
            key_id = key i;
            target_scope = target i;
            capabilities = capabilities i;
            default_audience_scope = audience i;
            resource_scope = types i;
            global_constraints = constraints i;
            revocation = revocation i;
            issued_at = issued i;
            signature = [];
            issuer_principal = principal i;
            interoperability_profile = none;
          })
        (object (
          after-Apart (write_bytes "{") (
            write_json_string_field-Apart formats f "active_owning_authority"
              a.active_owning_authority b.active_owning_authority)
          comma write_capabilities_field-Apart formats f "capabilities" a.capabilities
              b.capabilities
          comma write_audience_scope_field-Apart formats f "default_audience_scope"
              a.default_audience_scope b.default_audience_scope
          comma write_global_constraints_field-Apart formats f "global_constraints"
              a.global_constraints b.global_constraints
          comma write_json_string_field-Apart formats f "grant_series_id" a.grant_series_id
              b.grant_series_id
          comma write_datetime_field-Apart formats f "issued_at" a.issued_at b.issued_at
          comma write_json_string_field-Apart formats f "issuer_authority" a.issuer_authority
              b.issuer_authority
          comma write_principal_field-Apart formats f "issuer_principal" a.issuer_principal
              b.issuer_principal
          comma write_json_string_field-Apart formats f "key_id" a.key_id b.key_id
          comma write_json_string_field-Apart formats f "origin_authority" a.origin_authority
              b.origin_authority
          comma write_resource_scope_field-Apart formats f "resource_scope" a.resource_scope
              b.resource_scope
          comma write_u64_field-Apart formats f "revision" a.revision b.revision
          comma write_revocation_field-Apart formats f "revocation" a.revocation b.revocation
          comma write_optional_string_field-Apart formats f "supersedes" a.supersedes b.supersedes
          comma write_supersession_policy_field-Apart formats f "supersession_policy"
              a.supersession_policy b.supersession_policy
          comma write_scope_field-Apart formats f "target_scope" a.target_scope b.target_scope
          comma write_json_string_field-Apart formats f "trustgrant_id" a.trustgrant_id
              b.trustgrant_id
          comma write_u64_field-Apart formats f "version" a.version b.version))

  unsigned_lem :
      (a : RawTrustGrantDocument)
      → write_trustgrant_document formats a ≡ write_trustgrant_document formats (signed_part a)
  unfolding write_trustgrant_document
  unsigned_lem a = refl

  -- Where strings, numbers and dates are written faithfully, a document has the canonical bytes of
  -- another one exactly when the two agree in all but the signature and the interoperability profile.
  pub canonicalize_trustgrant_iff :
      (a b : RawTrustGrantDocument) (bytes : Bytes)
      → canonicalize_trustgrant formats a rfc8785 ≡ ok bytes
      → (canonicalize_trustgrant formats b rfc8785 ≡ ok bytes) ↔ (signed_part a ≡ signed_part b)
  unfolding canonicalize_trustgrant
  canonicalize_trustgrant_iff a b bytes h = (
    λ h'. Splits-same (write_trustgrant_document-Splits a b) bytes h h',
    λ e. unsigned_lem b ∙ ap (write_trustgrant_document formats) (sym e) ∙ sym (unsigned_lem a) ∙ h,
  )
