-- ===== src/Netcert/Phase/Order.antt =====
-- How the phases of agent/internal/netcert/netcert.go follow one another, and what they have to do with the
-- renewal.
use everwas.Base.{ℕ, ◌≤◌, ◌≡◌, true, some, arith}
use everwas.Netcert.Phase.{Material, Phase, fresh, due, urgent, expired, phase_at, due_for_renewal}

abbrev pub rank : Phase → ℕ
rank fresh = 0
rank due = 1
rank urgent = 2
rank expired = 3

-- Whatever the material: from its first valid moment on, a later look never finds an earlier phase.
pub phase_at-ordered :
    (n : ℕ) (m : Material) (s t : ℕ)
    → m.not_before ≤ s
    → s ≤ t
    → rank (phase_at n s (some m)) ≤ rank (phase_at n t (some m))
unfolding phase_at
phase_at-ordered n m s t b h = ground arith

pub due_for_renewal-rank :
    (n : ℕ) (m : Material) (now : ℕ)
    → 1 ≤ rank (phase_at n now (some m))
    → due_for_renewal now (some m) ≡ true
unfolding phase_at due_for_renewal
due_for_renewal-rank n m now h = ground arith
