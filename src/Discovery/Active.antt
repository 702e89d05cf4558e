-- ===== src/Discovery/Active.antt =====
-- document.rs: when a key is active.
use trustgrant.Prelude.{◌≤◌, true, ◌≡◌, ◌↔◌, arith}
use trustgrant.Domain.Ownership.{Instant}
use trustgrant.Discovery.{AuthorityKeyRecord, is_active_at}

abbrev pub IsActive : AuthorityKeyRecord → Instant → Type 0
IsActive r at = (r.not_before ≤ at) × (at ≤ r.not_after)

pub IsActive-iff :
    (r : AuthorityKeyRecord) (at : Instant) → (is_active_at r at ≡ true) ↔ IsActive r at
unfolding is_active_at
IsActive-iff r at = ground arith
