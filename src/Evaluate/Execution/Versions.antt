-- ===== src/Evaluate/Execution/Versions.antt =====
-- execution.rs: the versions of registered resources, and calls that return.
use trustgrant.Prelude.{
  ℕ, ◌+◌, false, Option, none, some, ◌≡◌, ap, sym, ◌∙◌, inl, inr, Bool-cases, Result, ok, err,
  ok_or, >>=-eq-ok, eqb, eqb_iff, traverse_option,
}
use trustgrant.Prelude.Assoc
use trustgrant.Prelude.Assoc.{get-insert_self}
use trustgrant.Verify.Grant.{VerifiedTrustGrant}
use trustgrant.Evaluate.Request.{ResourceRef}
use trustgrant.Evaluate.Mutation.{
  MutationRequest, MutationAuthorization, is_mint, existing_resource,
}
use trustgrant.Evaluate.Execution.{
  InMemoryExecutionError, unknown_resource, missing_typed_resource_reference,
  InMemoryExecutionState, ResourceKey, resource_key, resource_key_eq, log, check_version, advance,
  advance_version,
}
use trustgrant.Evaluate.Execution.Run.{
  applied, returned, Apply, settle, commit, authorize_and_execute,
}
use trustgrant.Evaluate.Execution.Parts.{applied-parts}
use trustgrant.Evaluate.Execution.Counters.{advance-eq-ok, state_or}

-- A caller's `apply` that leaves the versions of the transaction alone.
abbrev pub LeavesVersions : {T : Type 0} → Apply T → Type 0
LeavesVersions {T} apply =
    (u v : InMemoryExecutionState) (a : MutationAuthorization) (x : T)
    → apply u a ≡ some (ok (x, v))
    → u.resource_versions ≡ v.resource_versions

-- A resource at the version that the request expects, and one higher afterwards.
pub record IsAdvanced (resource : ResourceRef) (s t : InMemoryExecutionState) : Type 0 where
  pub key : ResourceKey
  pub version : ℕ
  pub keyed : resource_key resource ≡ ok key
  pub expected : resource.expected_version ≡ some version
  pub before : Assoc.get key s.resource_versions ≡ some version
  pub after : Assoc.get key t.resource_versions ≡ some (version + 1)

ok_or-eq-ok :
    {E : Type 0} {A : Type 0} (m : Option A) (e : E) (a : A) → ok_or m e ≡ ok a → m ≡ some a
ok_or-eq-ok none e a h = cc
ok_or-eq-ok (some b) e a h = ap (value b) h
  where
    value : {E A : Type 0} → A → Result E A → Option A
    value b (ok c) = some c
    value b (err e) = some b

check_version-eq-none :
    (s : InMemoryExecutionState) (resource : ResourceRef) (key : ResourceKey)
    → check_version s (some resource) (some key) ≡ ok none
    → (n : ℕ) × (resource.expected_version ≡ some n) × (Assoc.get key s.resource_versions ≡ some n)
unfolding check_version
check_version-eq-none s resource key h =
    let (current, e₁, h₁) =
      >>=-eq-ok (ok_or (Assoc.get key s.resource_versions) unknown_resource) _ h in
    let (expected, e₂, h₂) =
      >>=-eq-ok (ok_or resource.expected_version missing_typed_resource_reference) _ h₁ in
    elim (Bool-cases (eqb expected current)) [
      | inl e ↦ (
        expected,
        ok_or-eq-ok resource.expected_version missing_typed_resource_reference expected e₂,
        ok_or-eq-ok (Assoc.get key s.resource_versions) unknown_resource current e₁
            ∙ ap some (sym ((eqb_iff expected current).0 e)),
      )
      | inr e ↦ cc (rw e at h₂)
    ]

advance_version-after :
    (key : ResourceKey) (n : ℕ) (s t : InMemoryExecutionState)
    → Assoc.get key s.resource_versions ≡ some n
    → advance_version (some key) s ≡ ok t
    → Assoc.get key t.resource_versions ≡ some (n + 1)
unfolding advance_version
advance_version-after key n s t found h =
    let (current, e₁, h₁) =
      >>=-eq-ok (ok_or (Assoc.get key s.resource_versions) unknown_resource) _ h in
    let (next, e₂, h₂) = >>=-eq-ok (advance current 1) _ h₁ in
    let (next_eq, _) = advance-eq-ok current 1 next e₂ in
    let at : some current ≡ some n =
      sym (ok_or-eq-ok (Assoc.get key s.resource_versions) unknown_resource current e₁) ∙ found in
    ap (λ x. Assoc.get key (state_or s x).resource_versions) (sym h₂)
    ∙ get-insert_self key next s.resource_versions
    ∙ ap some next_eq
    ∙ ap (λ x. elim x [ none ↦ none | some c ↦ some (c + 1) ]) at

module _ {T : Type 0} (grant : VerifiedTrustGrant) (request : MutationRequest)
    (apply : Apply T) where
  -- A call that is applied to an existing resource, with a caller's `apply` that leaves the versions
  -- alone, finds the resource registered at the version that the request expects, and leaves it at
  -- the next one.
  pub authorize_and_execute-IsAdvanced :
      (resource : ResourceRef) (s t : InMemoryExecutionState) (a : MutationAuthorization) (v : T)
      → LeavesVersions apply
      → is_mint request ≡ false
      → existing_resource request ≡ some resource
      → authorize_and_execute grant request apply s ≡ returned (ok (applied a v)) t
      → IsAdvanced resource s t
  unfolding traverse_option commit settle
  authorize_and_execute-IsAdvanced resource s t a v leaves other bound run =
      let parts = applied-parts grant request apply s t a v run in
      let keyed : traverse_option resource_key (some resource) ≡ ok parts.key =
        rw bound at parts.keyed in
      let (key, e, h) = >>=-eq-ok (resource_key resource) _ keyed in
      let the_key : some key ≡ parts.key = ap (key_or none) h in
      let version : check_version s (some resource) (some key) ≡ ok none =
        rw (bound, sym the_key) at parts.version in
      let (n, expected, before) = check_version-eq-none s resource key version in
      let ((w, u), applies, h₁) = >>=-eq-ok parts.called _ parts.committed in
      let (u', settles, h₂) =
        >>=-eq-ok (settle grant request apply parts.evaluated parts.key u) _ h₁ in
      let advanced : advance_version (some key) u ≡ ok u' = rw (other, sym the_key) at settles in
      let there : Assoc.get key u.resource_versions ≡ some n =
        ap (λ l. Assoc.get key l) (sym (leaves (log a s) u a w (parts.applies ∙ ap some applies)))
        ∙ before in
      record {
        key = key;
        version = n;
        keyed = e;
        expected = expected;
        before = before;
        after =
            ap (λ x. Assoc.get key (second u' x).resource_versions) (sym h₂)
            ∙ advance_version-after key n u u' there advanced;
      }
    where
      key_or :
          Option ResourceKey
          → Result InMemoryExecutionError (Option ResourceKey)
          → Option ResourceKey
      key_or d (ok k) = k
      key_or d (err x) = d

      second :
          InMemoryExecutionState
          → Result InMemoryExecutionError (T × InMemoryExecutionState)
          → InMemoryExecutionState
      second d (ok (x, y)) = y
      second d (err x) = d
