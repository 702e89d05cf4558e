-- ===== src/Domain/Names.antt =====
-- crates/trustgrant-domain/src/names.rs: names that are validated when they are made. Each newtype
-- over `String` is a record of its text.
pub mod Kinds
use trustgrant.Prelude.{
  ℕ, String, Bool, true, false, ◌||◌, Option, none, some, Result, ok, err, ◌>>=◌, ◌>>◌, guard, ◌==◌,
  ◌≡◌, ◌↔◌, list_eq, nat_eq, Eq, eq_via, find, not, if◌then◌else◌, is_empty, ap, eq_list_iff,
  eq_list, refl, ◌∷◌, [], arith,
}
use trustgrant.Prelude.Text.{Text, codes, trim, is_control, is_whitespace, map_chars, ascii_lower}
use trustgrant.Errors.Kinds.{
  TrustGrantError, empty_string_field, invalid_string_field_character, reserved_operation_name,
}
use trustgrant.Errors.Limits.{
  ensure_string_limit, max_operation_name_bytes, max_resource_type_name_bytes, max_key_id_bytes,
  max_selector_kind_bytes, max_principal_kind_bytes, max_principal_id_bytes,
}

unfoldable pub normalize_non_empty : String → Text → Result TrustGrantError Text
unfolding trim
normalize_non_empty field_name value =
    let trimmed = trim value in
    if is_empty trimmed then err (empty_string_field field_name) else ok trimmed

-- A character that no token may hold.
abbrev pub is_forbidden : ℕ → Bool
is_forbidden character = is_control character || is_whitespace character

abbrev pub check_characters : String → Text → Result TrustGrantError Text
check_characters field_name trimmed = elim (find is_forbidden trimmed) [
  | none ↦ ok trimmed
  | some character ↦ err (invalid_string_field_character field_name character)
]

unfoldable pub normalize_non_empty_token : String → Text → ℕ → Result TrustGrantError Text
unfolding normalize_non_empty ensure_string_limit find is_control is_whitespace
normalize_non_empty_token field_name value max_bytes = do
  trimmed ← normalize_non_empty field_name value
  ensure_string_limit field_name trimmed max_bytes
  check_characters field_name trimmed

pub record OperationName : Type 0 where
  pub as_str : Text

unfoldable pub new_operation_name : Text → Result TrustGrantError OperationName
unfolding normalize_non_empty_token
new_operation_name value = do
  token ← normalize_non_empty_token "operation" value max_operation_name_bytes
  ok (record { as_str = token })

pub record CustomOperationName : Type 0 where
  pub operation_name : OperationName

abbrev is_reserved : Text → Bool
is_reserved name = name == codes "recognize" || name == codes "mint" || name == codes "create"

unfoldable pub new_custom_operation_name : Text → Result TrustGrantError CustomOperationName
unfolding new_operation_name eq_list
new_custom_operation_name value = do
  operation ← new_operation_name value
  guard (not (is_reserved operation.as_str)) reserved_operation_name
  ok (record { operation_name = operation })

pub record ResourceTypeName : Type 0 where
  pub as_str : Text

unfoldable pub new_resource_type_name : Text → Result TrustGrantError ResourceTypeName
unfolding normalize_non_empty_token
new_resource_type_name value = do
  token ← normalize_non_empty_token "resource_type" value max_resource_type_name_bytes
  ok (record { as_str = token })

pub record KeyId : Type 0 where
  pub as_str : Text

unfoldable pub new_key_id : Text → Result TrustGrantError KeyId
unfolding normalize_non_empty_token
new_key_id value = do
  token ← normalize_non_empty_token "key_id" value max_key_id_bytes
  ok (record { as_str = token })

pub record PrincipalKind : Type 0 where
  pub as_str : Text

unfoldable pub new_principal_kind : Text → Result TrustGrantError PrincipalKind
unfolding normalize_non_empty_token
new_principal_kind value = do
  token ← normalize_non_empty_token "issuer_principal.kind" value max_principal_kind_bytes
  ok (record { as_str = token })

pub record PrincipalId : Type 0 where
  pub as_str : Text

unfoldable pub new_principal_id : Text → Result TrustGrantError PrincipalId
unfolding normalize_non_empty_token
new_principal_id value = do
  token ← normalize_non_empty_token "issuer_principal.id" value max_principal_id_bytes
  ok (record { as_str = token })

pub data SelectorKindClassification : Type 0 where
  authority namespace actor other : SelectorKindClassification

pub record SelectorKind : Type 0 where
  pub classification : SelectorKindClassification
  pub value : Text

-- `value.to_lowercase()` is one of three ASCII words without `k` exactly when lowering the ASCII
-- letters alone gives it: of the other characters only U+212A has an ASCII lower case, `k`.
unfoldable pub from_normalized : Text → SelectorKindClassification
unfolding map_chars ascii_lower eq_list
from_normalized value =
    let lowered = map_chars ascii_lower value in
    if lowered == codes "authority"
    then authority
    else if lowered == codes "namespace"
    then namespace
    else if lowered == codes "actor"
    then actor
    else other

unfoldable pub new_selector_kind : Text → Result TrustGrantError SelectorKind
unfolding normalize_non_empty_token from_normalized
new_selector_kind value = do
  token ← normalize_non_empty_token "selector.kind" value max_selector_kind_bytes
  ok (record { classification = from_normalized token; value = token })

abbrev same_classification : SelectorKindClassification → SelectorKindClassification → Bool
same_classification authority authority = true
same_classification namespace namespace = true
same_classification actor actor = true
same_classification other other = true
same_classification _ _ = false

abbrev same_kind_by : SelectorKindClassification → SelectorKindClassification → Text → Text → Bool
same_kind_by other other v w = v == w
same_kind_by left right v w = same_classification left right

-- `PartialEq for SelectorKind` is this test too.
unfoldable pub same_kind : SelectorKind → SelectorKind → Bool
unfolding eq_list
same_kind a b = same_kind_by a.classification b.classification a.value b.value

abbrev index_of : SelectorKindClassification → Option ℕ
index_of authority = some 0
index_of namespace = some 1
index_of actor = some 2
index_of other = none

unfoldable pub kind_index : SelectorKind → Option ℕ
kind_index kind = index_of kind.classification

instance abbrev pub operation_name_eq : Eq OperationName
operation_name_eq = record {
  beq = λ a b. a.as_str == b.as_str;
  beq_iff = λ a b. (
    (λ h. λ i. record { as_str = (eq_list_iff a.as_str b.as_str).0 h i }),
    λ p. (eq_list_iff a.as_str b.as_str).1 (ap (λ (x : OperationName). x.as_str) p),
  );
}

instance abbrev pub resource_type_name_eq : Eq ResourceTypeName
resource_type_name_eq = record {
  beq = λ a b. a.as_str == b.as_str;
  beq_iff = λ a b. (
    (λ h. λ i. record { as_str = (eq_list_iff a.as_str b.as_str).0 h i }),
    λ p. (eq_list_iff a.as_str b.as_str).1 (ap (λ (x : ResourceTypeName). x.as_str) p),
  );
}

instance abbrev pub custom_operation_name_eq : Eq CustomOperationName
custom_operation_name_eq = record {
  beq = λ a b. a.operation_name == b.operation_name;
  beq_iff = λ a b. (
    (λ h. λ i. record {
      operation_name = (operation_name_eq.beq_iff a.operation_name b.operation_name).0 h i;
    }),
    λ p.
        (operation_name_eq.beq_iff a.operation_name b.operation_name).1
          (ap (λ (x : CustomOperationName). x.operation_name) p),
  );
}

instance abbrev pub key_id_eq : Eq KeyId
key_id_eq = eq_via (λ k. k.as_str) (λ s. record { as_str = s }) (λ k. refl) list_eq

instance abbrev pub principal_kind_eq : Eq PrincipalKind
principal_kind_eq = eq_via (λ k. k.as_str) (λ s. record { as_str = s }) (λ k. refl) list_eq

instance abbrev pub principal_id_eq : Eq PrincipalId
principal_id_eq = eq_via (λ k. k.as_str) (λ s. record { as_str = s }) (λ k. refl) list_eq
