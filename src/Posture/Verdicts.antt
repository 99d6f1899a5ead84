-- ===== src/Posture/Verdicts.antt =====
-- What agent/internal/posture makes of the checks.
use everwas.Base.{ℕ, ◌+◌, ◌≡◌, false, List, [], ◌∷◌, length, Any, ◌⊎◌}
use everwas.Base.Text.{Text, text_lt}
use everwas.Posture.{Status, fail, assessed, Result, Outcome, finds, panics, Check, Summary}

-- A check ran to its end and returned this status.
abbrev pub Returned : Status → Outcome → Type 0
Returned s panics = ⊥
Returned s (finds r) = r.status ≡ s

-- A status is no verdict, or it is one that a check of the list returned.
abbrev pub IsHonest : List Check → Status → Type 0
IsHonest cs s = (assessed s ≡ false) ⊎ Any (λ c. Returned s c.outcome) cs

abbrev pub IsSorted : List Result → Type 0
IsSorted [] = Unit {0}
IsSorted (r ∷ []) = Unit {0}
IsSorted (r ∷ s ∷ rs) = (text_lt s.check r.check ≡ false) × IsSorted (s ∷ rs)

-- Some result of that name is a failure.
abbrev pub IsBlamed : List Result → Text → Type 0
IsBlamed rs n = Any (λ r. (r.check ≡ n) × (r.status ≡ fail)) rs

abbrev total : Summary → ℕ
total s = length s.passed + length s.failed + length s.not_assessed

-- What a result adds to a summary of the results before it.
abbrev IsSummed : Summary → Type 0
IsSummed s = s.assessed_count ≡ length s.passed + length s.failed
