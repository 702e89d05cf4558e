-- ===== src/Document/Validate.antt =====
-- crates/trustgrant-document/src/validated.rs: from a raw document to a validated one. The
-- parameters are `str::to_lowercase` and `Uuid::parse_str`.
use trustgrant.Prelude.{
  String, ◌&&◌, not, Option, none, some, List, [], ◌∷◌, Result, ok, ◌>>=◌, ◌>>◌, guard, ◌==◌,
  nat_eq, list_eq, option_eq, eq_list, eq_option, eqb, length, is_empty, is_some, any,
  unwrap_or_default, traverse_option,
}
use trustgrant.Prelude.Text.{Text}
use trustgrant.Prelude.Assoc
use trustgrant.Errors.Kinds.{
  TrustGrantError, invalid_protocol_version, invalid_supersedes_for_first_revision,
  self_supersession, duplicate_audience_authority,
}
use trustgrant.Errors.Limits.{ensure_collection_limit, max_audience_entries, max_resource_types}
use trustgrant.Domain.Ids.{Uuid, parse_prefixed_uuid}
use trustgrant.Domain.Lineage
use trustgrant.Domain.Lineage.{SupersessionPolicy, GrantLineage, new_grant_revision}
use trustgrant.Domain.Names.{
  ResourceTypeName, resource_type_name_eq, new_resource_type_name, new_key_id, new_principal_kind,
  new_principal_id,
}
use trustgrant.Domain.Authority.{AuthorityId, same_authority, authority_id_eq, new_authority_id}
use trustgrant.Document.Model.{
  ValidatedPrincipal, ValidatedAudienceEntry, ValidatedTypeConstraints, ValidatedResourceType,
  ValidatedTimeWindow, ValidatedTrustGrantDocument, new_validated_time_window,
}
use trustgrant.Document.Raw.{
  RawSupersessionPolicy, coexist, supersede_previous, RawPrincipal, RawAudienceEntry,
  RawTypeConstraints, RawResourceType, RawGlobalConstraints, RawTrustGrantDocument,
}
use trustgrant.Document.Selectors.{
  normalize_non_empty_string, validate_selectors, validate_scope, validate_scope_shape,
  validate_operation_scope,
}

abbrev pub policy_of : RawSupersessionPolicy → SupersessionPolicy
policy_of coexist = Lineage.SupersessionPolicy.coexist
policy_of supersede_previous = Lineage.SupersessionPolicy.supersede_previous

unfoldable pub validate_principal : RawPrincipal → Result TrustGrantError ValidatedPrincipal
unfolding new_principal_kind new_principal_id
validate_principal raw = do
  kind ← new_principal_kind raw.kind
  id ← new_principal_id raw.id
  ok (record { kind = kind; id = id })

unfoldable pub validate_global_constraints :
    Option RawGlobalConstraints → Result TrustGrantError (Option ValidatedTimeWindow)
unfolding new_validated_time_window traverse_option
validate_global_constraints none = ok none
validate_global_constraints (some raw) =
    traverse_option (λ t. new_validated_time_window t.not_before t.not_after) raw.time

module _ (to_lowercase : Text → Text) where
  -- The closure and the loop of `validate_audience_entries`.
  unfoldable pub validate_audience_from :
      String
      → List AuthorityId
      → List RawAudienceEntry
      → Result TrustGrantError (List ValidatedAudienceEntry)
  unfolding new_authority_id any same_authority validate_scope traverse_option
  validate_audience_from scope_name seen [] = ok []
  validate_audience_from scope_name seen (entry ∷ entries) = do
    authority_id ← new_authority_id to_lowercase entry.authority_id
    guard (not (any (λ a. a == authority_id) seen)) duplicate_audience_authority
    scope ← validate_scope scope_name entry.scope
    principal_scope ← traverse_option (validate_scope scope_name) entry.principal_scope
    rest ← validate_audience_from scope_name (authority_id ∷ seen) entries
    ok (
        record { authority_id = authority_id; scope = scope; principal_scope = principal_scope }
        ∷ rest)

  unfoldable pub validate_audience_entries :
      String → Option (List RawAudienceEntry) → Result TrustGrantError (List ValidatedAudienceEntry)
  unfolding ensure_collection_limit validate_audience_from
  validate_audience_entries scope_name raw = do
    let entries = unwrap_or_default raw
    ensure_collection_limit scope_name (length entries) max_audience_entries
    validate_audience_from scope_name [] entries

  unfoldable pub validate_type_constraints :
      RawTypeConstraints → Result TrustGrantError ValidatedTypeConstraints
  unfolding validate_audience_entries
  validate_type_constraints raw = do
    audience_scope ← validate_audience_entries "resource_scope.audience_scope" raw.audience_scope
    ok (record {
      minting = record {
        max_total = raw.minting.max_total;
        max_per_user = raw.minting.max_per_user;
      };
      audience_scope = audience_scope;
    })

  unfoldable pub validate_resource_type :
      RawResourceType → Result TrustGrantError ValidatedResourceType
  unfolding validate_selectors validate_type_constraints validate_operation_scope
      validate_scope_shape traverse_option
  validate_resource_type raw = do
    allow ← validate_selectors raw.allow
    deny ← validate_selectors raw.deny
    constraints ← validate_type_constraints raw.constraints
    operations ← traverse_option validate_operation_scope raw.operations
    validate_scope_shape "resource_scope.types" raw.all (is_empty allow) (not (is_empty allow))
    ok (record {
      all = raw.all;
      allow = allow;
      deny = deny;
      capabilities = record {
        recognize = raw.capabilities.recognize;
        mint = raw.capabilities.mint;
      };
      constraints = constraints;
      operations = operations;
    })

  -- `collect` into a map: a key that comes again replaces the type before it.
  unfoldable pub collect_resource_types :
      List (ResourceTypeName × ValidatedResourceType)
      → List (Text × RawResourceType)
      → Result TrustGrantError (List (ResourceTypeName × ValidatedResourceType))
  unfolding new_resource_type_name validate_resource_type Assoc.insert eq_list
  collect_resource_types collected [] = ok collected
  collect_resource_types collected ((name, raw) ∷ types) = do
    name' ← new_resource_type_name name
    resource_type ← validate_resource_type raw
    collect_resource_types (Assoc.insert name' resource_type collected) types

  unfoldable pub validate_resource_scope :
      List (Text × RawResourceType)
      → Result TrustGrantError (List (ResourceTypeName × ValidatedResourceType))
  unfolding ensure_collection_limit collect_resource_types
  validate_resource_scope types = do
    ensure_collection_limit "resource_scope.types" (length types) max_resource_types
    collect_resource_types [] types

  module _ (parse_str : Text → Option Uuid) where
    -- The first part of `try_from`: the version and the lineage.
    unfoldable pub validate_lineage : RawTrustGrantDocument → Result TrustGrantError GrantLineage
    unfolding parse_prefixed_uuid new_grant_revision traverse_option eq_option
    validate_lineage raw = do
      guard (eqb raw.version 0) (invalid_protocol_version raw.version)
      trustgrant_id ← parse_prefixed_uuid parse_str raw.trustgrant_id "tg"
      grant_series_id ← parse_prefixed_uuid parse_str raw.grant_series_id "tgs"
      revision ← new_grant_revision raw.revision
      supersedes ← traverse_option (λ id. parse_prefixed_uuid parse_str id "tg") raw.supersedes
      guard (not (eqb revision.get 1 && is_some supersedes)) invalid_supersedes_for_first_revision
      guard (not (supersedes == some trustgrant_id)) self_supersession
      ok (record {
        trustgrant_id = trustgrant_id;
        grant_series_id = grant_series_id;
        revision = revision;
        supersedes = supersedes;
        supersession_policy = policy_of raw.supersession_policy;
      })

    -- `TryFrom<RawTrustGrantDocument>`
    unfoldable pub try_from :
        RawTrustGrantDocument → Result TrustGrantError ValidatedTrustGrantDocument
    unfolding validate_lineage new_authority_id new_key_id normalize_non_empty_string validate_scope
        validate_audience_entries validate_resource_scope validate_global_constraints
        traverse_option validate_principal
    try_from raw = do
      lineage ← validate_lineage raw
      issuer_authority ← new_authority_id to_lowercase raw.issuer_authority
      origin_authority ← new_authority_id to_lowercase raw.origin_authority
      active_owning_authority ← new_authority_id to_lowercase raw.active_owning_authority
      key_id ← new_key_id raw.key_id
      signature ← normalize_non_empty_string "signature" raw.signature none
      target_scope ← validate_scope "target_scope" raw.target_scope
      default_audience_scope ←
          validate_audience_entries "default_audience_scope" raw.default_audience_scope
      resource_scope ← validate_resource_scope raw.resource_scope.types
      global_time_window ← validate_global_constraints raw.global_constraints
      issuer_principal ← traverse_option validate_principal raw.issuer_principal
      ok (record {
        lineage = lineage;
        issuer_authority = issuer_authority;
        ownership_authority_state = record {
          origin_authority = origin_authority;
          active_owning_authority = active_owning_authority;
        };
        key_id = key_id;
        target_scope = target_scope;
        capabilities = record {
          recognize = raw.capabilities.recognize;
          mint = raw.capabilities.mint;
        };
        default_audience_scope = default_audience_scope;
        resource_scope = resource_scope;
        global_time_window = global_time_window;
        revocation = elim raw.revocation [
          | none ↦ none
          | some r ↦ some (record {
            revocable = r.revocable;
            revocation_endpoint = r.revocation_endpoint;
            post_revocation_effect = r.post_revocation_effect;
          })
        ];
        issued_at = raw.issued_at;
        signature = signature;
        issuer_principal = issuer_principal;
        interoperability_profile = raw.interoperability_profile;
      })
