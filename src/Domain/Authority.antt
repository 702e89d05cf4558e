-- ===== src/Domain/Authority.antt =====
-- crates/trustgrant-domain/src/authority.rs: authority identifiers with a scheme.
-- `str::to_lowercase` over all of Unicode is the parameter `to_lowercase`.
use trustgrant.Prelude.{
  ℕ, String, Bool, true, false, ◌&&◌, none, some, Result, ok, err, ◌>>=◌, ◌>>◌, guard, ◌==◌, ◌≡◌,
  ◌↔◌, list_eq, nat_eq, Eq, find, not, if◌then◌else◌, is_empty, eq_list_iff, eq_list, refl, ok_or,
  eqb, arith, and-eq-true, eqb_iff,
}
use trustgrant.Prelude.Text.{Text, codes, trim, byte_len, split_at_char, map_chars, ascii_lower}
use trustgrant.Errors.Kinds.{
  TrustGrantError, empty_authority_id, invalid_authority_id_character,
  invalid_authority_id_missing_scheme,
}
use trustgrant.Errors.Limits.{ensure_string_limit, max_authority_id_bytes}
use trustgrant.Domain.Names.{is_forbidden}

pub data AuthorityScheme : Type 0 where
  https did chain other : AuthorityScheme

abbrev pub same_scheme : AuthorityScheme → AuthorityScheme → Bool
same_scheme https https = true
same_scheme did did = true
same_scheme chain chain = true
same_scheme other other = true
same_scheme _ _ = false

pub same_scheme_iff : (a b : AuthorityScheme) → (same_scheme a b ≡ true) ↔ (a ≡ b)
same_scheme_iff a b = ground arith

-- `scheme_end` is the number of bytes before the colon.
pub record AuthorityId : Type 0 where
  pub value : Text
  pub scheme_end : ℕ
  pub scheme : AuthorityScheme

-- `scheme_name.eq_ignore_ascii_case(word)` for a lower-case ASCII word.
abbrev equals_ignoring_case : Text → String → Bool
equals_ignoring_case name word = map_chars ascii_lower name == codes word

abbrev scheme_of : Text → AuthorityScheme
scheme_of scheme_name =
    if equals_ignoring_case scheme_name "https"
    then https
    else if equals_ignoring_case scheme_name "did"
    then did
    else if equals_ignoring_case scheme_name "chain"
    then chain
    else other

-- `find` of a forbidden character.
abbrev check_authority_characters : Text → Result TrustGrantError (Unit {0})
check_authority_characters trimmed = elim (find is_forbidden trimmed) [
  | none ↦ ok tt
  | some character ↦ err (invalid_authority_id_character character)
]

module _ (to_lowercase : Text → Text) where
  unfoldable pub new_authority_id : Text → Result TrustGrantError AuthorityId
  unfolding trim ensure_string_limit find split_at_char byte_len map_chars ascii_lower eq_list
  new_authority_id value = do
    let trimmed = trim value
    guard (not (is_empty trimmed)) empty_authority_id
    ensure_string_limit "authority_id" trimmed max_authority_id_bytes
    check_authority_characters trimmed
    let lowercased = to_lowercase trimmed
    ensure_string_limit "authority_id" lowercased max_authority_id_bytes
    (scheme_name, rest) ← ok_or (split_at_char b':' lowercased) invalid_authority_id_missing_scheme
    guard (not (is_empty scheme_name)) invalid_authority_id_missing_scheme
    ok (record {
      value = lowercased;
      scheme_end = byte_len scheme_name;
      scheme = scheme_of scheme_name;
    })

unfoldable pub same_authority : AuthorityId → AuthorityId → Bool
unfolding eq_list
same_authority a b =
    a.value == b.value && (eqb a.scheme_end b.scheme_end && same_scheme a.scheme b.scheme)

same_authority_sound : (a b : AuthorityId) → same_authority a b ≡ true → a ≡ b
unfolding same_authority
same_authority_sound a b h =
    let (p, q) = (and-eq-true (a.value == b.value) _).0 h in
    let (q', r) = (and-eq-true (eqb a.scheme_end b.scheme_end) _).0 q in
    λ i. record {
      value = (eq_list_iff a.value b.value).0 p i;
      scheme_end = (eqb_iff a.scheme_end b.scheme_end).0 q' i;
      scheme = (same_scheme_iff a.scheme b.scheme).0 r i;
    }

same_authority_refl : (a : AuthorityId) → same_authority a a ≡ true
unfolding same_authority
same_authority_refl a =
    let p : eq_list a.value a.value ≡ true = (eq_list_iff a.value a.value).1 refl in
    let q : same_scheme a.scheme a.scheme ≡ true = (same_scheme_iff a.scheme a.scheme).1 refl in
    ground arith

pub same_authority_iff : (a b : AuthorityId) → (same_authority a b ≡ true) ↔ (a ≡ b)
same_authority_iff a b = (same_authority_sound a b, λ p. rw p (same_authority_refl b))

instance abbrev pub authority_id_eq : Eq AuthorityId
authority_id_eq = record { beq = same_authority; beq_iff = same_authority_iff }

-- Who made a resource, and who owns it now.
pub record OwnershipAuthorityState : Type 0 where
  pub origin_authority : AuthorityId
  pub active_owning_authority : AuthorityId
