-- ===== src/Issue/Draft.antt =====
-- crates/trustgrant-issue/src/draft.rs: a draft, and the document that it becomes. The identifiers
-- that `new` generates are its arguments; `to_lowercase` and `uuid_text` are `str::to_lowercase` and the
-- `Display` of `Uuid`.
use trustgrant.Prelude.{
  option_map, non_empty, Bool, true, false, ◌&&◌, not, Option, none, some, List, [], Result, ok,
  err, ◌>>=◌, ◌>>◌, guard, ◌==◌, nat_eq, option_eq, eq_option, eqb, leb, is_empty, is_some,
}
use trustgrant.Prelude.Text.{Text, trim}
use trustgrant.Errors.Kinds.{
  TrustGrantError, unsupported_v0_wire_supersession_policy, invalid_supersedes_for_first_revision,
  self_supersession, invalid_time_window, empty_string_field,
}
use trustgrant.Domain.Ids.{Uuid, display_id, TrustGrantId, GrantSeriesId}
use trustgrant.Domain.Lineage
use trustgrant.Domain.Lineage.{GrantRevision, new_grant_revision, SupersessionPolicy}
use trustgrant.Domain.Names.{KeyId, new_key_id}
use trustgrant.Domain.Authority.{AuthorityId, new_authority_id}
use trustgrant.Domain.Ownership.{Instant}
use trustgrant.Domain.Canonicalization.{rfc8785}
use trustgrant.Document.Model.{InteroperabilityProfile}
use trustgrant.Document.Raw.{
  RawScope, RawCapabilities, RawAudienceEntry, RawResourceScope, RawTimeWindow, RawRevocation,
  RawPrincipal, RawSupersessionPolicy, RawTrustGrantDocument,
}
use trustgrant.Canonical.Writer.{Written, Formats}
use trustgrant.Verify.Canonicalize.Document.{canonicalize_trustgrant}

pub record TrustGrantDraftAuthorities : Type 0 where
  pub issuer_authority : AuthorityId
  pub origin_authority : AuthorityId
  pub active_owning_authority : AuthorityId

module _ (to_lowercase : Text → Text) where
  unfoldable pub self_owned : Text → Result TrustGrantError TrustGrantDraftAuthorities
  unfolding new_authority_id
  self_owned authority = do
    authority' ← new_authority_id to_lowercase authority
    ok (record {
      issuer_authority = authority';
      origin_authority = authority';
      active_owning_authority = authority';
    })

  unfoldable pub new_draft_authorities :
      Text → Text → Text → Result TrustGrantError TrustGrantDraftAuthorities
  unfolding new_authority_id
  new_draft_authorities issuer_authority origin_authority active_owning_authority = do
    issuer ← new_authority_id to_lowercase issuer_authority
    origin ← new_authority_id to_lowercase origin_authority
    owner ← new_authority_id to_lowercase active_owning_authority
    ok (record {
      issuer_authority = issuer;
      origin_authority = origin;
      active_owning_authority = owner;
    })

pub record TrustGrantDraft : Type 0 where
  pub trustgrant_id : TrustGrantId
  pub grant_series_id : GrantSeriesId
  pub revision : GrantRevision
  pub supersedes : Option TrustGrantId
  pub supersession_policy : SupersessionPolicy
  pub issuer_authority : AuthorityId
  pub origin_authority : AuthorityId
  pub active_owning_authority : AuthorityId
  pub key_id : KeyId
  pub target_scope : RawScope
  pub capabilities : RawCapabilities
  pub default_audience_scope : List RawAudienceEntry
  pub resource_scope : RawResourceScope
  pub global_time_window : Option RawTimeWindow
  pub revocation : Option RawRevocation
  pub issued_at : Instant
  pub issuer_principal : Option RawPrincipal
  pub interoperability_profile : Option InteroperabilityProfile

unfoldable pub new_draft :
    TrustGrantId
    → GrantSeriesId
    → TrustGrantDraftAuthorities
    → Text
    → RawScope
    → RawCapabilities
    → RawResourceScope
    → Instant
    → Result TrustGrantError TrustGrantDraft
unfolding new_grant_revision new_key_id
new_draft id series authorities key_id target_scope capabilities resource_scope issued_at = do
  revision ← new_grant_revision 1
  key_id' ← new_key_id key_id
  ok (record {
    trustgrant_id = id;
    grant_series_id = series;
    revision = revision;
    supersedes = none;
    supersession_policy = Lineage.SupersessionPolicy.coexist;
    issuer_authority = authorities.issuer_authority;
    origin_authority = authorities.origin_authority;
    active_owning_authority = authorities.active_owning_authority;
    key_id = key_id';
    target_scope = target_scope;
    capabilities = capabilities;
    default_audience_scope = [];
    resource_scope = resource_scope;
    global_time_window = none;
    revocation = none;
    issued_at = issued_at;
    issuer_principal = none;
    interoperability_profile = none;
  })

-- `matches!(supersession_policy, SupersessionPolicy::ExplicitRevocationRequired)`
abbrev pub is_explicit : SupersessionPolicy → Bool
is_explicit Lineage.SupersessionPolicy.explicit_revocation_required = true
is_explicit _ = false

-- A draft with another lineage.
abbrev pub set_lineage :
    GrantSeriesId
    → GrantRevision
    → Option TrustGrantId
    → SupersessionPolicy
    → TrustGrantDraft
    → TrustGrantDraft
set_lineage series revision supersedes policy d = record {
  trustgrant_id = d.trustgrant_id;
  grant_series_id = series;
  revision = revision;
  supersedes = supersedes;
  supersession_policy = policy;
  issuer_authority = d.issuer_authority;
  origin_authority = d.origin_authority;
  active_owning_authority = d.active_owning_authority;
  key_id = d.key_id;
  target_scope = d.target_scope;
  capabilities = d.capabilities;
  default_audience_scope = d.default_audience_scope;
  resource_scope = d.resource_scope;
  global_time_window = d.global_time_window;
  revocation = d.revocation;
  issued_at = d.issued_at;
  issuer_principal = d.issuer_principal;
  interoperability_profile = d.interoperability_profile;
}

unfoldable pub with_lineage :
    GrantSeriesId
    → GrantRevision
    → Option TrustGrantId
    → SupersessionPolicy
    → TrustGrantDraft
    → Result TrustGrantError TrustGrantDraft
unfolding eq_option
with_lineage series revision supersedes policy draft = do
  guard (not (is_explicit policy)) unsupported_v0_wire_supersession_policy
  guard (not (eqb revision.get 1 && is_some supersedes)) invalid_supersedes_for_first_revision
  guard (not (supersedes == some draft.trustgrant_id)) self_supersession
  ok (set_lineage series revision supersedes policy draft)

-- The builder methods that set one of the parts that no check looks at.
abbrev pub set_parts :
    List RawAudienceEntry
    → Option RawTimeWindow
    → Option RawRevocation
    → Option RawPrincipal
    → Option InteroperabilityProfile
    → TrustGrantDraft
    → TrustGrantDraft
set_parts audience window revocation principal profile d = record {
  trustgrant_id = d.trustgrant_id;
  grant_series_id = d.grant_series_id;
  revision = d.revision;
  supersedes = d.supersedes;
  supersession_policy = d.supersession_policy;
  issuer_authority = d.issuer_authority;
  origin_authority = d.origin_authority;
  active_owning_authority = d.active_owning_authority;
  key_id = d.key_id;
  target_scope = d.target_scope;
  capabilities = d.capabilities;
  default_audience_scope = audience;
  resource_scope = d.resource_scope;
  global_time_window = window;
  revocation = revocation;
  issued_at = d.issued_at;
  issuer_principal = principal;
  interoperability_profile = profile;
}

unfoldable pub with_default_audience_scope :
    List RawAudienceEntry → TrustGrantDraft → TrustGrantDraft
with_default_audience_scope audience d =
    set_parts audience d.global_time_window d.revocation d.issuer_principal
      d.interoperability_profile d

unfoldable pub with_global_time_window :
    RawTimeWindow → TrustGrantDraft → Result TrustGrantError TrustGrantDraft
with_global_time_window window d = do
  guard (leb window.not_before window.not_after) invalid_time_window
  ok (
      set_parts d.default_audience_scope (some window) d.revocation d.issuer_principal
        d.interoperability_profile d)

unfoldable pub with_revocation : RawRevocation → TrustGrantDraft → TrustGrantDraft
with_revocation revocation d =
    set_parts d.default_audience_scope d.global_time_window (some revocation) d.issuer_principal
      d.interoperability_profile d

unfoldable pub with_issuer_principal : RawPrincipal → TrustGrantDraft → TrustGrantDraft
with_issuer_principal principal d =
    set_parts d.default_audience_scope d.global_time_window d.revocation (some principal)
      d.interoperability_profile d

unfoldable pub with_interoperability_profile :
    InteroperabilityProfile → TrustGrantDraft → TrustGrantDraft
with_interoperability_profile profile d =
    set_parts d.default_audience_scope d.global_time_window d.revocation d.issuer_principal
      (some profile) d

-- The match on the policy, in `signable_document` and in `into_signable_document`.
abbrev pub raw_policy : SupersessionPolicy → Result TrustGrantError RawSupersessionPolicy
raw_policy Lineage.SupersessionPolicy.coexist = ok RawSupersessionPolicy.coexist
raw_policy Lineage.SupersessionPolicy.supersede_previous =
    ok RawSupersessionPolicy.supersede_previous
raw_policy Lineage.SupersessionPolicy.explicit_revocation_required =
    err unsupported_v0_wire_supersession_policy

abbrev pub into_raw_policy : SupersessionPolicy → Result TrustGrantError RawSupersessionPolicy
into_raw_policy Lineage.SupersessionPolicy.coexist = ok RawSupersessionPolicy.coexist
into_raw_policy Lineage.SupersessionPolicy.supersede_previous =
    ok RawSupersessionPolicy.supersede_previous
into_raw_policy Lineage.SupersessionPolicy.explicit_revocation_required =
    err unsupported_v0_wire_supersession_policy

module _ (uuid_text : Uuid → Text) where
  unfoldable pub signable_document : TrustGrantDraft → Result TrustGrantError RawTrustGrantDocument
  signable_document d = do
    supersession_policy ← raw_policy d.supersession_policy
    ok (record {
      trustgrant_id = display_id uuid_text "tg" d.trustgrant_id;
      version = 0;
      grant_series_id = display_id uuid_text "tgs" d.grant_series_id;
      revision = d.revision.get;
      supersedes = option_map (display_id uuid_text "tg") d.supersedes;
      supersession_policy = supersession_policy;
      issuer_authority = d.issuer_authority.value;
      origin_authority = d.origin_authority.value;
      active_owning_authority = d.active_owning_authority.value;
      key_id = d.key_id.as_str;
      target_scope = d.target_scope;
      capabilities = d.capabilities;
      default_audience_scope = non_empty d.default_audience_scope;
      resource_scope = d.resource_scope;
      global_constraints = option_map (λ t. record { time = some t }) d.global_time_window;
      revocation = d.revocation;
      issued_at = d.issued_at;
      signature = [];
      issuer_principal = d.issuer_principal;
      interoperability_profile = d.interoperability_profile;
    })

  -- The other function that writes the document, from the draft's own parts.
  unfoldable pub into_signable_document :
      TrustGrantDraft → Result TrustGrantError RawTrustGrantDocument
  into_signable_document d = do
    supersession_policy ← into_raw_policy d.supersession_policy
    ok (record {
      trustgrant_id = display_id uuid_text "tg" d.trustgrant_id;
      version = 0;
      grant_series_id = display_id uuid_text "tgs" d.grant_series_id;
      revision = d.revision.get;
      supersedes = option_map (display_id uuid_text "tg") d.supersedes;
      supersession_policy = supersession_policy;
      issuer_authority = d.issuer_authority.value;
      origin_authority = d.origin_authority.value;
      active_owning_authority = d.active_owning_authority.value;
      key_id = d.key_id.as_str;
      target_scope = d.target_scope;
      capabilities = d.capabilities;
      default_audience_scope = non_empty d.default_audience_scope;
      resource_scope = d.resource_scope;
      global_constraints = option_map (λ t. record { time = some t }) d.global_time_window;
      revocation = d.revocation;
      issued_at = d.issued_at;
      signature = [];
      issuer_principal = d.issuer_principal;
      interoperability_profile = d.interoperability_profile;
    })

  unfoldable pub into_signed_document :
      TrustGrantDraft → Text → Result TrustGrantError RawTrustGrantDocument
  unfolding trim into_signable_document
  into_signed_document d signature = do
    guard (not (is_empty (trim signature))) (empty_string_field "signature")
    document ← into_signable_document d
    ok (record document { signature = signature })

  unfoldable pub canonical_bytes : Formats → TrustGrantDraft → Written
  unfolding signable_document canonicalize_trustgrant
  canonical_bytes formats d = do
    document ← signable_document d
    canonicalize_trustgrant formats document rfc8785
