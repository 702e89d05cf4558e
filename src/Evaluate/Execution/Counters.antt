-- ===== src/Evaluate/Execution/Counters.antt =====
-- execution.rs: the counters of minted resources, and the limits of a grant on them.
use trustgrant.Prelude.{
  ℕ, ◌+◌, ◌≤◌, Bool, true, false, Option, none, some, ◌≡◌, refl, ap, sym, subst, ◌∙◌, inl, inr,
  arith, Bool-cases, Result, ok, err, ok_or, >>=-eq-ok, ltb, ◌==◌, if◌then◌else◌, unwrap_or,
}
use trustgrant.Prelude.Assoc
use trustgrant.Prelude.Assoc.{get-insert}
use trustgrant.Evaluate.Engine.{u64_max}
use trustgrant.Evaluate.Mutation.{MutationAuthorization}
use trustgrant.Evaluate.Execution.{
  InMemoryExecutionError, unknown_resource, InMemoryExecutionState, ResourceKey, MintTotalKey,
  MintPrincipalKey, mint_total_key_eq, mint_principal_key_eq, advance, advance_mints,
  advance_version, total_of, principal_total_of, resource_key_eq,
}
use trustgrant.Evaluate.Execution.Run.{Apply}

-- Two states with the same counters.
abbrev pub SameCounters : InMemoryExecutionState → InMemoryExecutionState → Type 0
SameCounters s t = (s.total_mints ≡ t.total_mints) × (s.mints_for_principal ≡ t.mints_for_principal)

-- A caller's `apply` that leaves the counters of the transaction alone.
abbrev pub LeavesCounters : {T : Type 0} → Apply T → Type 0
LeavesCounters {T} apply =
    (u v : InMemoryExecutionState) (a : MutationAuthorization) (x : T)
    → apply u a ≡ some (ok (x, v))
    → SameCounters u v

pub advance-eq-ok :
    (value delta next : ℕ)
    → advance value delta ≡ ok next
    → (next ≡ value + delta) × (next ≤ u64_max)
unfolding advance
advance-eq-ok value delta next h = elim (Bool-cases (ltb u64_max (value + delta))) [
  | inl e ↦ cc (rw e at h)
  | inr e ↦
      let same : value + delta ≡ next = ap (ok_value 0) (rw e at h) in (sym same, ground arith)
]
  where
    ok_value : ℕ → Result InMemoryExecutionError ℕ → ℕ
    ok_value d (ok n) = n
    ok_value d (err e) = d

-- What a mint leaves in the counters.
pub record IsMinted (total_key : MintTotalKey) (principal_key : MintPrincipalKey) (quantity : ℕ)
    (s t : InMemoryExecutionState) : Type 0 where
  pub fits : total_of s total_key + quantity ≤ u64_max
  pub fits_principal : principal_total_of s principal_key + quantity ≤ u64_max
  pub totals :
      (k : MintTotalKey)
      → total_of t k ≡ (if total_key == k then total_of s total_key + quantity else total_of s k)
  pub principals :
      (k : MintPrincipalKey)
      → principal_total_of t k ≡ (
          if principal_key == k
          then principal_total_of s principal_key + quantity
          else principal_total_of s k)

unwrap-if :
    (b : Bool) (n : ℕ) (m : Option ℕ)
    → unwrap_or 0 (if b then some n else m) ≡ (if b then n else unwrap_or 0 m)
unwrap-if true n m = refl
unwrap-if false n m = refl

total-insert :
    (s : InMemoryExecutionState) (j k : MintTotalKey) (n : ℕ)
    → unwrap_or 0 (Assoc.get k (Assoc.insert j n s.total_mints))
      ≡ (if j == k then n else total_of s k)
unfolding total_of
total-insert s j k n = rw (get-insert) (unwrap-if (j == k) n (Assoc.get k s.total_mints))

principal-insert :
    (s : InMemoryExecutionState) (j k : MintPrincipalKey) (n : ℕ)
    → unwrap_or 0 (Assoc.get k (Assoc.insert j n s.mints_for_principal))
      ≡ (if j == k then n else principal_total_of s k)
unfolding principal_total_of
principal-insert s j k n =
    rw (get-insert) (unwrap-if (j == k) n (Assoc.get k s.mints_for_principal))

-- The state of a result, or one in its place.
abbrev pub state_or :
    InMemoryExecutionState
    → Result InMemoryExecutionError InMemoryExecutionState
    → InMemoryExecutionState
state_or s (ok t) = t
state_or s (err e) = s

pub advance_mints-IsMinted :
    (j : MintTotalKey) (p : MintPrincipalKey) (q : ℕ) (s t : InMemoryExecutionState)
    → advance_mints j p q s ≡ ok t
    → IsMinted j p q s t
unfolding advance_mints total_of principal_total_of
advance_mints-IsMinted j p q s t h =
    let (n, e₁, h₁) = >>=-eq-ok (advance (total_of s j) q) _ h in
    let (m, e₂, h₂) = >>=-eq-ok (advance (principal_total_of s p) q) _ h₁ in
    let (n_eq, n_le) = advance-eq-ok (total_of s j) q n e₁ in
    let (m_eq, m_le) = advance-eq-ok (principal_total_of s p) q m e₂ in
    let totals : Assoc.insert j n s.total_mints ≡ t.total_mints =
      ap (λ x. (state_or s x).total_mints) h₂ in
    let principals : Assoc.insert p m s.mints_for_principal ≡ t.mints_for_principal =
      ap (λ x. (state_or s x).mints_for_principal) h₂ in
    record {
      fits = subst (λ x. x ≤ u64_max) n_eq n_le;
      fits_principal = subst (λ x. x ≤ u64_max) m_eq m_le;
      totals = λ k.
          ap (λ l. unwrap_or 0 (Assoc.get k l)) (sym totals)
          ∙ total-insert s j k n
          ∙ ap (λ x. if j == k then x else total_of s k) n_eq;
      principals = λ k.
          ap (λ l. unwrap_or 0 (Assoc.get k l)) (sym principals)
          ∙ principal-insert s p k m
          ∙ ap (λ x. if p == k then x else principal_total_of s k) m_eq;
    }

pub advance_version-SameCounters :
    (key : Option ResourceKey) (s t : InMemoryExecutionState)
    → advance_version key s ≡ ok t
    → SameCounters s t
unfolding advance_version
advance_version-SameCounters none s t h =
    (ap (λ x. (state_or s x).total_mints) h, ap (λ x. (state_or s x).mints_for_principal) h)
advance_version-SameCounters (some key) s t h =
    let (current, e₁, h₁) =
      >>=-eq-ok (ok_or (Assoc.get key s.resource_versions) unknown_resource) _ h in
    let (next, e₂, h₂) = >>=-eq-ok (advance current 1) _ h₁ in
    (ap (λ x. (state_or s x).total_mints) h₂, ap (λ x. (state_or s x).mints_for_principal) h₂)

pub total_of-same :
    (s t : InMemoryExecutionState) (k : MintTotalKey)
    → SameCounters s t
    → total_of s k ≡ total_of t k
unfolding total_of
total_of-same s t k (e, _) = ap (λ l. unwrap_or 0 (Assoc.get k l)) e

pub principal_total_of-same :
    (s t : InMemoryExecutionState) (k : MintPrincipalKey)
    → SameCounters s t
    → principal_total_of s k ≡ principal_total_of t k
unfolding principal_total_of
principal_total_of-same s t k (_, e) = ap (λ l. unwrap_or 0 (Assoc.get k l)) e
