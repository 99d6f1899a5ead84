-- ===== src/Jobs/Effects.antt =====
-- What a job of agent/internal/jobs does to the outside, in order, and the end that its handlers share.
pub mod Trace
pub mod Ends
use everwas.Base.{ℕ, ◌≡◌, refl, Bool, true, false, Option, none, some, List, [], ◌∷◌, ◌++◌, map}
use everwas.Base.Text.{Text, codes}
use everwas.Scripts.Chunk.{Chunk, Emitted}
use everwas.Scripts.Job.{JobSpec, Result, Status}
use everwas.Scripts.Publish.{publish_result, publish_stderr}
use everwas.Scripts.Runner.{
  Note, Effect, Phase, phase_finished, note_status, progress, outputs, publishes,
}

-- The audit events of the handlers.
pub data Event : Type 0 where
  patch_scanned patch_installed agent_updated command_unsupported job_panicked_event : Event

pub data JobEffect : Type 0 where
  does : Effect → JobEffect
  emits : Event → JobSpec → JobEffect
  refreshes_inventory refreshes_patch_state : JobEffect
  installs : List Text → JobEffect
  applies : JobEffect
  restarts hands_off : Text → JobEffect

abbrev pub says : ℕ → Phase → Note → JobEffect
says pct phase n = does (progress pct phase n)

-- `PublishResult`.
unfoldable pub sends : JobSpec → Result → JobEffect
unfolding publish_result
sends spec res = let (id, r) = publish_result spec res in does (publishes id r)

abbrev pub output_effect : Chunk → JobEffect
output_effect c = does (outputs c)

-- `PublishStderr`, and what comes after it.
module _ (refuses : Chunk → Bool) where
  unfoldable pub stderr_then : JobSpec → Text → List JobEffect → Option (List JobEffect)
  unfolding publish_stderr
  stderr_then spec text rest = elim (publish_stderr refuses spec text) [
    | none ↦ none
    | some o ↦ some (map output_effect o.chunks ++ rest)
  ]

-- What went on before an end that may not have been reached.
abbrev pub after : List JobEffect → Option (List JobEffect) → Option (List JobEffect)
after before none = none
after before (some rest) = some (before ++ rest)
