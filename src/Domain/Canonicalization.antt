-- ===== src/Domain/Canonicalization.antt =====
-- crates/trustgrant-domain/src/canonicalization.rs: the canonicalization profile, and the order of
-- keys by their UTF-16 code units.
pub mod Order
pub mod Keys
use trustgrant.Prelude.{
  ℕ, ◌+◌, ◌-◌, String, Bool, true, false, ◌&&◌, ◌||◌, List, [], ◌∷◌, if◌then◌else◌, ltb, eqb, ◌/◌,
  ◌%◌,
}
use trustgrant.Prelude.Text.{Text}

pub data CanonicalizationProfile : Type 0 where
  rfc8785 : CanonicalizationProfile

unfoldable pub discovery_name : CanonicalizationProfile → String
discovery_name rfc8785 = "RFC8785"

-- `encode_utf16`: a code point beyond the basic plane is a pair of surrogates.
unfoldable pub encode_utf16 : Text → List ℕ
encode_utf16 [] = []
encode_utf16 (c ∷ s) =
    let rest = encode_utf16 s in
    if ltb c 65536
    then c ∷ rest
    else (55296 + (c - 65536) / 1024) ∷ (56320 + (c - 65536) % 1024) ∷ rest

-- Whether `cmp` of two lists of code units is `Less`.
unfoldable pub is_less : List ℕ → List ℕ → Bool
is_less [] [] = false
is_less [] (r ∷ right) = true
is_less (l ∷ left) [] = false
is_less (l ∷ left) (r ∷ right) = ltb l r || (eqb l r && is_less left right)

-- `insert` into a `BTreeMap` whose keys are `Utf16Key`s.
module _ {V : Type 0} where
  unfoldable pub insert_key : Text → V → List (Text × V) → List (Text × V)
  unfolding encode_utf16 is_less
  insert_key key value [] = (key, value) ∷ []
  insert_key key value ((other, old) ∷ rest) =
      let later = insert_key key value rest in
      if is_less (encode_utf16 key) (encode_utf16 other)
      then (key, value) ∷ (other, old) ∷ rest
      else if is_less (encode_utf16 other) (encode_utf16 key)
      then (other, old) ∷ later
      else (other, value) ∷ rest

  -- `collect` into such a map.
  unfoldable pub collect_keys : List (Text × V) → List (Text × V) → List (Text × V)
  unfolding insert_key
  collect_keys collected [] = collected
  collect_keys collected ((key, value) ∷ entries) =
      collect_keys (insert_key key value collected) entries
