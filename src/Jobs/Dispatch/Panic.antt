-- ===== src/Jobs/Dispatch/Panic.antt =====
-- `runJob` of agent/internal/jobs/jobs.go: a job that may panic at any point.
use everwas.Base.{ℕ, ◌≤◌, ◌≡◌, Option, none, some}
use everwas.Base.Text.{Text}
use everwas.Scripts.Chunk.{Chunk}
use everwas.Scripts.Job.{JobSpec, Result}

abbrev pub IsResultOf : JobSpec → Text × Result → Type 0
IsResultOf spec r = (r.0 ≡ spec.job_id) × (r.1.entry_id ≡ spec.entry_id)

-- How many results a job sends: one, or, where it panics, one more than it had sent.
abbrev pub HowMany : Option (ℕ × Text) → ℕ → Type 0
HowMany none n = n ≡ 1
HowMany (some p) n = (1 ≤ n) × (n ≤ 2)
