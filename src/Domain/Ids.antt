-- ===== src/Domain/Ids.antt =====
-- crates/trustgrant-domain/src/ids.rs: identifiers with a prefix. A `Uuid` is its 128-bit number;
-- `Uuid::parse_str` is the parameter `parse_str`.
use trustgrant.Prelude.{
  ◌++◌, ℕ, String, Option, Result, ◌>>=◌, ◌>>◌, guard, ok_or, ◌==◌, list_eq, nat_eq, [], ◌∷◌,
  eq_list,
}
use trustgrant.Prelude.Text.{Text, codes, split_at_char}
use trustgrant.Errors.Kinds.{
  TrustGrantError, missing_id_separator, invalid_id_prefix, invalid_id_uuid,
}

abbrev pub Uuid : Type 0
Uuid = ℕ

abbrev pub TrustGrantId : Type 0
TrustGrantId = Uuid

abbrev pub GrantSeriesId : Type 0
GrantSeriesId = Uuid

abbrev pub TransitionId : Type 0
TransitionId = Uuid

abbrev pub TransitionSeriesId : Type 0
TransitionSeriesId = Uuid

-- The text behind the separator.
abbrev after_separator : Text → Text
after_separator [] = []
after_separator (c ∷ s) = s

module _ (parse_str : Text → Option Uuid) where
  unfoldable pub parse_prefixed_uuid : Text → String → Result TrustGrantError Uuid
  unfolding split_at_char eq_list
  parse_prefixed_uuid value expected_prefix = do
    (prefix, rest) ← ok_or (split_at_char b'_' value) missing_id_separator
    guard (prefix == codes expected_prefix) (invalid_id_prefix expected_prefix)
    ok_or (parse_str (after_separator rest)) invalid_id_uuid

-- The `Display` of an identifier; `uuid_text` is that of a `Uuid`.
module _ (uuid_text : Uuid → Text) where
  abbrev pub display_id : String → Uuid → Text
  display_id prefix id = codes prefix ++ b'_' ∷ uuid_text id
