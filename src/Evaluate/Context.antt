-- ===== src/Evaluate/Context.antt =====
-- crates/trustgrant-evaluate/src/request.rs: the selectors that a request carries.
pub mod StableKey
pub mod Index
pub mod Insert
pub mod Laws
use trustgrant.Prelude.{
  ℕ, zero, suc, ◌+◌, ◌-◌, String, Bool, true, false, ◌||◌, Option, none, some, List, [], ◌∷◌, ◌++◌,
  Result, ok, err, ◌>>=◌, ◌>>◌, ◌==◌, nat_eq, list_eq, eq_list, if◌then◌else◌, is_empty, length,
  get_elem?, set, any, find,
}
use trustgrant.Prelude.Text.{Text, trim}
use trustgrant.Errors.Kinds.{TrustGrantError, empty_string_field}
use trustgrant.Errors.Limits.{
  ensure_string_limit, ensure_collection_limit, max_request_selector_value_bytes,
  max_request_values_per_kind, max_request_selector_kinds,
}
use trustgrant.Domain.Names.{SelectorKind, new_selector_kind, same_kind, kind_index}

pub record SelectorValues : Type 0 where
  pub kind : SelectorKind
  pub values : List Text

-- `kind_index` holds, for each built-in kind, where its entry stands.
pub record SelectorContext : Type 0 where
  pub entries : List SelectorValues
  pub kind_index : List (Option ℕ)

abbrev pub new_selector_context : SelectorContext
new_selector_context = record { entries = []; kind_index = none ∷ none ∷ none ∷ none ∷ [] }

unfoldable pub normalize_context_value : String → Text → Result TrustGrantError Text
unfolding trim ensure_string_limit
normalize_context_value field_name value = do
  let trimmed = trim value
  if is_empty trimmed
      then err (empty_string_field field_name)
      else do ensure_string_limit field_name trimmed max_request_selector_value_bytes; ok trimmed

-- The value joins an entry of its kind, unless it is there already.
unfoldable pub add_value : Text → SelectorValues → Result TrustGrantError SelectorValues
unfolding any ensure_collection_limit eq_list
add_value value entry = if any (λ existing. existing == value) entry.values then ok entry else do
  ensure_collection_limit "request.selector_values" (length entry.values + 1)
      max_request_values_per_kind
  ok (record entry { values = entry.values ++ value ∷ [] })

-- `entries.iter_mut().find(same_kind)`: the entries with the found one updated, or none.
unfoldable pub update_entry :
    SelectorKind
    → Text
    → List SelectorValues
    → Result TrustGrantError (Option (List SelectorValues))
unfolding same_kind add_value
update_entry kind value [] = ok none
update_entry kind value (entry ∷ entries) = elim (same_kind entry.kind kind) [
  | true ↦ do entry' ← add_value value entry; ok (some (entry' ∷ entries))
  | false ↦ do
    rest ← update_entry kind value entries
    elim rest [ none ↦ ok none | some entries' ↦ ok (some (entry ∷ entries')) ]
]

-- A new entry, and its place in the index if its kind is built in.
unfoldable pub push_entry : SelectorKind → Text → SelectorContext → SelectorContext
unfolding kind_index
push_entry kind value ctx = record {
  entries = ctx.entries ++ record { kind = kind; values = value ∷ [] } ∷ [];
  kind_index = elim (kind_index kind) [
    | none ↦ ctx.kind_index
    | some idx ↦ set ctx.kind_index idx (some (length ctx.entries))
  ];
}

-- `insert` past the validation of its arguments.
unfoldable pub insert_value :
    SelectorKind → Text → SelectorContext → Result TrustGrantError SelectorContext
unfolding update_entry ensure_collection_limit push_entry
insert_value kind value ctx = do
  updated ← update_entry kind value ctx.entries
  elim updated [
    | some entries ↦ ok (record ctx { entries = entries })
    | none ↦ do
      ensure_collection_limit "request.selector_kinds" (length ctx.entries + 1)
          max_request_selector_kinds
      ok (push_entry kind value ctx)
  ]

unfoldable pub insert : Text → Text → SelectorContext → Result TrustGrantError SelectorContext
unfolding new_selector_kind normalize_context_value insert_value
insert kind value ctx = do
  kind' ← new_selector_kind kind
  value' ← normalize_context_value "selector_context.value" value
  insert_value kind' value' ctx

-- The linear scan of `values_for_kind`.
unfoldable pub scan : SelectorKind → List SelectorValues → Option (List Text)
unfolding same_kind
scan kind [] = none
scan kind (entry ∷ entries) =
    if same_kind entry.kind kind then some entry.values else scan kind entries

-- `kind_index.get(idx)`, when it names an entry.
abbrev pub indexed : SelectorContext → ℕ → Option SelectorValues
indexed ctx idx = elim (get_elem? ctx.kind_index idx) [
  | none ↦ none
  | some slot ↦ elim slot [ none ↦ none | some entry_idx ↦ get_elem? ctx.entries entry_idx ]
]

unfoldable pub values_for_kind : SelectorContext → SelectorKind → Option (List Text)
unfolding kind_index scan
values_for_kind ctx kind = elim (kind_index kind) [
  | none ↦ scan kind ctx.entries
  | some idx ↦ elim (indexed ctx idx) [
    | some entry ↦ some entry.values
    | none ↦ scan kind ctx.entries
  ]
]

unfoldable pub values_for_kind_str : SelectorContext → Text → Option (List Text)
unfolding find eq_list
values_for_kind_str ctx kind =
    elim (find (λ (e : SelectorValues). e.kind.value == kind) ctx.entries) [
      | none ↦ none
      | some entry ↦ some entry.values
    ]
