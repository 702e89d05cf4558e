-- ===== src/Tests/Records.antt =====
-- The verified grant of the shop, persisted and read again. An identifier is written in as many ones.
use mathlib.Core.List.{map}
use trustgrant.Prelude.{ℕ, ap, true, none, [], ◌∷◌, ◌≡◌, ◌↔◌, inr, arith, refl, Result, ok, err}
use trustgrant.Prelude.Text.{Text, map_chars, ascii_lower}
use trustgrant.Errors.Kinds.{
  TrustGrantError, stale_revocation_record, unsupported_persisted_verified_grant_record_version,
}
use trustgrant.Document.Raw.{RawTrustGrantDocument, RawResourceType}
use trustgrant.Domain.Canonicalization.{encode_utf16, is_less}
use trustgrant.Domain.Canonicalization.Order.{Precedes, is_less-encode_utf16_iff}
use trustgrant.Domain.Canonicalization.Keys.{IsInOrder, Has}
use trustgrant.Verify.Raw.{into_raw_document_for_consistency_check}
use trustgrant.Verify.Keys.{raw_types, into_raw_document_for_consistency_check-IsInOrder}
use trustgrant.Tests.Fixture.{items}
use trustgrant.Verify.Grant.{NormalizedTrustGrantDocument, VerifiedTrustGrant, normalize}
use trustgrant.Verify.Record.Model.{VerifiedTrustGrantRecord}
use trustgrant.Verify.Record.Rehydrate.{try_to_verified_grant}
use trustgrant.Verify.Record.Write.{grant_record}
use trustgrant.Verify.Record.Consistent.{IsRehydrated, try_to_verified_grant_iff}
use trustgrant.Tests.Documents.{raw_document, lower, parse_length}
use trustgrant.Tests.Writing.{ones}
use trustgrant.Tests.Verification.{artifacts}

abbrev kept : VerifiedTrustGrant
kept = artifacts.verified_grant

abbrev persisted : VerifiedTrustGrantRecord
persisted = grant_record ones kept

kept_test : try_to_verified_grant lower parse_length ones persisted ≡ ok kept
unfolding try_to_verified_grant grant_record map_chars ascii_lower normalize
kept_test = refl

version_test :
    try_to_verified_grant lower parse_length ones (record persisted { record_version = 2 })
    ≡ err (unsupported_persisted_verified_grant_record_version 2)
unfolding try_to_verified_grant
version_test = refl

late_record_test :
    try_to_verified_grant lower parse_length ones
      (record persisted { metadata = record persisted.metadata { verified_at = 91 } })
    ≡ err stale_revocation_record
unfolding try_to_verified_grant grant_record map_chars ascii_lower normalize
late_record_test = refl

try_to_verified_grant_iff_example : IsRehydrated lower parse_length ones persisted kept
try_to_verified_grant_iff_example =
    (try_to_verified_grant_iff lower parse_length ones persisted kept).0 kept_test

-- The code points 57344 and 65536, which UTF-8 and UTF-16 put in different orders.
abbrev two_types : NormalizedTrustGrantDocument
two_types = record kept.document {
  resource_scope =
      (record { as_str = 57344 ∷ [] }, items) ∷ (record { as_str = 65536 ∷ [] }, items) ∷ [];
}

abbrev raw_of : Result TrustGrantError RawTrustGrantDocument → RawTrustGrantDocument
raw_of (ok raw) = raw
raw_of (err _) = raw_document none

abbrev raw_two_types : RawTrustGrantDocument
raw_two_types = raw_of (into_raw_document_for_consistency_check ones two_types)

two_types_test : into_raw_document_for_consistency_check ones two_types ≡ ok raw_two_types
unfolding into_raw_document_for_consistency_check normalize
two_types_test = refl

order_test :
    map (λ entry. entry.0) raw_two_types.resource_scope.types ≡ (65536 ∷ []) ∷ (57344 ∷ []) ∷ []
unfolding into_raw_document_for_consistency_check normalize
order_test = refl

abbrev first_of : Text → ℕ
first_of [] = 0
first_of (c ∷ s) = c

into_raw_document_for_consistency_check-IsInOrder_example :
    IsInOrder raw_two_types.resource_scope.types
    × ((entry : Text × RawResourceType)
        → Has entry raw_two_types.resource_scope.types ↔ Has entry (raw_types two_types))
into_raw_document_for_consistency_check-IsInOrder_example =
    into_raw_document_for_consistency_check-IsInOrder ones two_types raw_two_types
      ((inr (omega arith, omega arith), tt), ((inr (omega arith, omega arith), tt), tt))
      ((λ h. omega (arith, ap first_of h), tt), (tt, tt)) two_types_test

less_test : is_less (encode_utf16 (65536 ∷ [])) (encode_utf16 (57344 ∷ [])) ≡ true
unfolding is_less encode_utf16
less_test = refl

is_less-encode_utf16_iff_example : Precedes (65536 ∷ []) (57344 ∷ [])
is_less-encode_utf16_iff_example =
    (is_less-encode_utf16_iff (65536 ∷ []) (57344 ∷ []) (inr (omega arith, omega arith), tt)
        (inr (omega arith, omega arith), tt)).0
      less_test
