-- ===== src/Revocation/Windows.antt =====
-- proof.rs: how long a record made of a proof stays fresh.
use trustgrant.Prelude.{ℕ, ◌*◌}

abbrev pub nanoseconds : ℕ → ℕ
nanoseconds seconds = seconds * 1000000000
