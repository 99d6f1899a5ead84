-- ===== src/Scripts/Job/Deadline.antt =====
-- The deadline of a job, agent/internal/scripts/runner.go.
use everwas.Base.{ℕ, ◌*◌, ◌≤◌, ◌<◌, ◌≡◌, true, arith}
use everwas.Base.Int.{ℤ, pos, negsuc, pos_part, ltb_ℤ, leb_ℤ, second, two_63, two_64}
use everwas.Scripts.Job.{job_timeout, max_timeout}

-- A number of seconds that fits in a Duration gives a deadline in the future and of at most a day.
pub job_timeout_bounds :
    (sec : ℤ)
    → pos_part sec * second < two_63
    → (ltb_ℤ (pos 0) (job_timeout sec) ≡ true) × (leb_ℤ (job_timeout sec) max_timeout ≡ true)
unfolding job_timeout
job_timeout_bounds (negsuc n) fits = ground arith
job_timeout_bounds (pos n) fits = ground arith

-- A number of seconds that does not fit, but whose nanoseconds are under 2^64, gives a deadline in the
-- past: the job is killed as timed out at once.
pub job_timeout_overflow :
    (n : ℕ) → two_63 ≤ n * second → n * second < two_64 → ltb_ℤ (job_timeout (pos n)) (pos 0) ≡ true
unfolding job_timeout
job_timeout_overflow n low high = ground arith
