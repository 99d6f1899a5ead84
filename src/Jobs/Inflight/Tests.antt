-- ===== src/Jobs/Inflight/Tests.antt =====
-- Runs of agent/internal/jobs/inflight.go at concrete inputs.
use everwas.Base.Int.{pos}
use everwas.Scripts.Job.{JobSpec}
use everwas.Base.{refl, [], ◌∷◌}
use everwas.Base.Text.{codes, member, text_eq}
use everwas.Jobs.Inflight.{Registry, nothing, new_registry, deliver}
use everwas.Jobs.Inflight.Leak.{IsWedged, redelivery_wedges}

abbrev job : JobSpec
job = record {
  job_id = codes "j";
  kind = codes "script";
  shell = [];
  body = [];
  timeout_s = pos 0;
  env = [];
  requested_by = [];
  entry_id = [];
}

abbrev asked : Registry
asked = record new_registry { waiting = job ∷ [] }

abbrev held : Registry
held = record new_registry { slots = 1; holding = job ∷ [] }

abbrev finished : Registry
finished = record new_registry { done = codes "j" ∷ []; done_order = codes "j" ∷ [] }

redelivery_wedges_example : IsWedged (deliver job (deliver job (deliver job finished).1).1).1
unfolding member text_eq
redelivery_wedges_example =
    redelivery_wedges job finished (deliver job (deliver job (deliver job finished).1).1).1 refl
      refl refl refl refl nothing
