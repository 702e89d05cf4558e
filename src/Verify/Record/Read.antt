-- ===== src/Verify/Record/Read.antt =====
-- record.rs: from a record back to a verified grant.
use trustgrant.Prelude.{
  ℕ, String, not, List, [], ◌∷◌, Result, ok, err, ◌>>=◌, ◌>>◌, guard, nat_eq, list_eq, eq_list,
  option_eq, length, is_empty, any, traverse, traverse_option,
}
use trustgrant.Prelude.Text.{Text, trim}
use trustgrant.Prelude.Assoc
use trustgrant.Errors.Kinds.{
  TrustGrantError, empty_string_field, duplicate_selector, unsupported_v0_wire_supersession_policy,
  invalid_id_uuid,
}
use trustgrant.Errors.Limits.{
  ensure_collection_limit, ensure_string_limit, max_audience_entries, max_selectors_per_scope,
  max_selector_values_per_selector, max_selector_value_bytes, max_selector_expressions_per_selector,
  max_selector_expression_bytes, max_operations_per_scope,
}
use trustgrant.Domain.Names.{
  ResourceTypeName, resource_type_name_eq, new_operation_name, new_resource_type_name,
  new_principal_kind, new_principal_id, new_selector_kind,
}
use trustgrant.Domain.Authority.{new_authority_id}
use trustgrant.Domain.Lineage
use trustgrant.Domain.Lineage.{new_grant_revision}
use trustgrant.Domain.Expression.{SelectorExpression, parse}
use trustgrant.Document.Model.{
  ValidatedScope, ValidatedSelector, ValidatedAudienceEntry, ValidatedResourceType,
  ValidatedOperationScope, ValidatedPrincipal,
}
use trustgrant.Document.Selectors.{
  new_validated_selector, new_validated_scope, new_validated_operation_scope, validate_scope_shape,
  same_selector,
}
use trustgrant.Verify.Record.Model.{
  SupersessionPolicyRecord, SelectorRecord, ScopeRecord, AudienceEntryRecord, OperationScopeRecord,
  ResourceTypeRecord, PrincipalRecord,
}

-- Both uses give a limit.
unfoldable pub normalize_persisted_non_empty_string :
    String → Text → ℕ → Result TrustGrantError Text
unfolding trim ensure_string_limit
normalize_persisted_non_empty_string field value max_bytes = do
  guard (not (is_empty (trim value))) (empty_string_field field)
  ensure_string_limit field (trim value) max_bytes
  ok (trim value)

abbrev pub read_expression : Text → Result TrustGrantError SelectorExpression
read_expression expression = do
  expression' ←
      normalize_persisted_non_empty_string "selector.expression" expression
        max_selector_expression_bytes
  parse expression'

unfoldable pub try_to_validated_selector : SelectorRecord → Result TrustGrantError ValidatedSelector
unfolding ensure_collection_limit new_selector_kind traverse normalize_persisted_non_empty_string
    parse new_validated_selector
try_to_validated_selector r = do
  ensure_collection_limit "verified_record.selector_values" (length r.values)
      max_selector_values_per_selector
  ensure_collection_limit "verified_record.selector_expressions" (length r.expressions)
      max_selector_expressions_per_selector
  kind ← new_selector_kind r.kind
  values ←
      traverse
        (λ v. normalize_persisted_non_empty_string "selector.value" v max_selector_value_bytes)
        r.values
  expressions ← traverse read_expression r.expressions
  new_validated_selector kind r.all values expressions

-- The loop of `validate_unique_selectors`.
unfoldable pub validate_unique_from :
    List ValidatedSelector → List SelectorRecord → Result TrustGrantError (List ValidatedSelector)
unfolding try_to_validated_selector any same_selector
validate_unique_from seen [] = ok []
validate_unique_from seen (r ∷ records) = do
  selector ← try_to_validated_selector r
  guard (not (any (λ s. same_selector s selector) seen)) duplicate_selector
  rest ← validate_unique_from (selector ∷ seen) records
  ok (selector ∷ rest)

abbrev pub validate_unique_selectors :
    List SelectorRecord → Result TrustGrantError (List ValidatedSelector)
validate_unique_selectors records = validate_unique_from [] records

unfoldable pub try_to_validated_scope : String → ScopeRecord → Result TrustGrantError ValidatedScope
unfolding ensure_collection_limit validate_unique_from new_validated_scope
try_to_validated_scope scope_name r = do
  ensure_collection_limit "verified_record.scope.allow" (length r.allow) max_selectors_per_scope
  ensure_collection_limit "verified_record.scope.deny" (length r.deny) max_selectors_per_scope
  allow ← validate_unique_selectors r.allow
  deny ← validate_unique_selectors r.deny
  new_validated_scope scope_name r.all allow deny

unfoldable pub try_to_validated_operation_scope :
    OperationScopeRecord → Result TrustGrantError ValidatedOperationScope
unfolding ensure_collection_limit traverse new_operation_name new_validated_operation_scope
try_to_validated_operation_scope r = do
  ensure_collection_limit "verified_record.operation_scope.allow" (length r.allow)
      max_operations_per_scope
  ensure_collection_limit "verified_record.operation_scope.deny" (length r.deny)
      max_operations_per_scope
  allow ← traverse new_operation_name r.allow
  deny ← traverse new_operation_name r.deny
  new_validated_operation_scope allow deny

unfoldable pub try_to_validated_principal :
    PrincipalRecord → Result TrustGrantError ValidatedPrincipal
unfolding new_principal_kind new_principal_id
try_to_validated_principal r = do
  kind ← new_principal_kind r.kind
  id ← new_principal_id r.id
  ok (record { kind = kind; id = id })

-- The match on the policy.
abbrev pub policy_from :
    SupersessionPolicyRecord → Result TrustGrantError Lineage.SupersessionPolicy
policy_from SupersessionPolicyRecord.coexist = ok Lineage.SupersessionPolicy.coexist
policy_from SupersessionPolicyRecord.supersede_previous =
    ok Lineage.SupersessionPolicy.supersede_previous
policy_from SupersessionPolicyRecord.explicit_revocation_required =
    err unsupported_v0_wire_supersession_policy

-- `map_err(|_error| ...)`
abbrev pub tip_or_invalid : {A : Type 0} → Result TrustGrantError A → Result TrustGrantError A
tip_or_invalid (ok a) = ok a
tip_or_invalid (err e) = err invalid_id_uuid

module _ (to_lowercase : Text → Text) where
  unfoldable pub try_to_validated_audience_entry :
      String → AudienceEntryRecord → Result TrustGrantError ValidatedAudienceEntry
  unfolding new_authority_id try_to_validated_scope traverse_option
  try_to_validated_audience_entry scope_name r = do
    authority_id ← new_authority_id to_lowercase r.authority_id
    scope ← try_to_validated_scope scope_name r.scope
    principal_scope ← traverse_option (try_to_validated_scope scope_name) r.principal_scope
    ok (record { authority_id = authority_id; scope = scope; principal_scope = principal_scope })

  unfoldable pub try_to_validated_resource_type :
      ResourceTypeRecord → Result TrustGrantError ValidatedResourceType
  unfolding ensure_collection_limit validate_unique_from traverse try_to_validated_audience_entry
      traverse_option try_to_validated_operation_scope validate_scope_shape
  try_to_validated_resource_type r = do
    ensure_collection_limit "verified_record.resource_type.allow" (length r.allow)
        max_selectors_per_scope
    ensure_collection_limit "verified_record.resource_type.deny" (length r.deny)
        max_selectors_per_scope
    ensure_collection_limit "verified_record.resource_type.audience_scope"
        (length r.constraints.audience_scope) max_audience_entries
    allow ← validate_unique_selectors r.allow
    deny ← validate_unique_selectors r.deny
    audience_scope ←
        traverse (try_to_validated_audience_entry "resource_scope.audience_scope")
          r.constraints.audience_scope
    operations ← traverse_option try_to_validated_operation_scope r.operations
    validate_scope_shape "resource_scope.types" r.all (is_empty allow) (not (is_empty allow))
    ok (record {
      all = r.all;
      allow = allow;
      deny = deny;
      capabilities = record { recognize = r.capabilities.recognize; mint = r.capabilities.mint };
      constraints = record {
        minting = record {
          max_total = r.constraints.minting.max_total;
          max_per_user = r.constraints.minting.max_per_user;
        };
        audience_scope = audience_scope;
      };
      operations = operations;
    })

  -- `collect` into a map: a key that comes again replaces the type before it.
  unfoldable pub collect_persisted_types :
      List (ResourceTypeName × ValidatedResourceType)
      → List (Text × ResourceTypeRecord)
      → Result TrustGrantError (List (ResourceTypeName × ValidatedResourceType))
  unfolding new_resource_type_name try_to_validated_resource_type Assoc.insert eq_list
  collect_persisted_types collected [] = ok collected
  collect_persisted_types collected ((name, r) ∷ types) = do
    name' ← new_resource_type_name name
    resource_type ← try_to_validated_resource_type r
    collect_persisted_types (Assoc.insert name' resource_type collected) types
