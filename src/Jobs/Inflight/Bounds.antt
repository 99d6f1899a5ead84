-- ===== src/Jobs/Inflight/Bounds.antt =====
-- What every run of the registry of agent/internal/jobs/inflight.go keeps to.
use everwas.Scripts.Job.{JobSpec}
use everwas.Base.{◌+◌, ◌≤◌, false, ◌≡◌, List, [], ◌∷◌, length}
use everwas.Base.Text.{Text}
use everwas.Jobs.Inflight.{Registry, is_inflight, max_concurrent_jobs, recently_done_cap}

-- No id is in the list twice.
unfoldable pub Distinct : List JobSpec → Type 0
Distinct [] = Unit {0}
Distinct (j ∷ js) = (is_inflight j.job_id js ≡ false) × Distinct js

pub record IsSound (r : Registry) : Type 0 where
  pub slots_bound : r.slots ≤ max_concurrent_jobs
  pub slots_cover : length r.inflight + length r.holding ≤ r.slots
  pub distinct : Distinct r.inflight
  pub done_bound : length r.done_order ≤ recently_done_cap
