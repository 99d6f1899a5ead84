-- ===== src/Jobs/Dispatch.antt =====
-- `runJob` and `execute` of agent/internal/jobs/jobs.go: one job of any kind, and the jobs that end in a
-- panic or with the agent.
pub mod Panic
pub mod Terminal
use everwas.Base.{
  ℕ, ◌≡◌, Bool, true, false, ◌||◌, Option, none, some, List, [], ◌∷◌, ◌++◌, map, take,
  if◌then◌else◌, ◌⊎◌, inl, inr,
}
use everwas.Base.Int.{pos}
use everwas.Base.Text.{Text, codes, text_eq}
use everwas.Scripts.Chunk.{Chunk}
use everwas.Scripts.Job.{JobSpec, Result, bare, succeeded, failed, cancelled, minus_one}
use everwas.Scripts.Runner.{Effect, Note, note, note_status, phase_started, phase_finished}
use everwas.Scripts.Runner
use everwas.Jobs.Failure.{Failure}
use everwas.Jobs.Effects.{
  JobEffect, does, says, sends, stderr_then, after, emits, refreshes_inventory, command_unsupported,
  job_panicked_event,
}
use everwas.Jobs.Patch.{Json, PatchDeps, kind_patch_scan, kind_patch_install}
use everwas.Jobs.Patch.Handlers.{execute_patch}
use everwas.Jobs.Update.{UpdateDeps, execute_update}

abbrev pub kind_script_run : Text
kind_script_run = codes "script.run"

abbrev pub kind_inventory_refresh : Text
kind_inventory_refresh = codes "inventory.refresh"

abbrev pub kind_agent_update : Text
kind_agent_update = codes "agent.update"

-- What a job of each kind finds. `refresh` is the hook, and its error.
pub record Surroundings : Type 0 where
  pub version : Text
  pub duration_ms : ℕ
  pub host : Runner.Host
  pub json : Json
  pub patch : PatchDeps
  pub update : UpdateDeps
  pub refresh : Option (Option Failure)

abbrev pub refresh_effects : Option (Option Failure) → List JobEffect
refresh_effects none = []
refresh_effects (some e) = refreshes_inventory ∷ []

abbrev pub refresh_result : Option (Option Failure) → Result
refresh_result none = bare failed minus_one
refresh_result (some none) = bare succeeded (pos 0)
refresh_result (some (some e)) = bare failed minus_one

unfoldable pub run_inventory_refresh : Surroundings → JobSpec → List JobEffect
unfolding sends
run_inventory_refresh m spec =
    let res : Result = record (refresh_result m.refresh) { duration_ms = m.duration_ms } in
    says 0 phase_started (note spec.kind)
    ∷ (refresh_effects m.refresh
        ++ says 100 phase_finished (note_status res.status) ∷ sends spec res ∷ [])

module _ (refuses : Chunk → Bool) (m : Surroundings) (spec : JobSpec) where
  unfoldable pub unsupported_job : Option (List JobEffect)
  unfolding stderr_then sends
  unsupported_job =
      let text =
        codes "job kind " ++ spec.kind ++ codes " is not supported by agent " ++ m.version in
      after (says 0 phase_started (note spec.kind) ∷ []) (
        stderr_then refuses spec (codes "everwas-agent: " ++ text ++ 10 ∷ []) (
          says 100 phase_finished (note_status failed)
          ∷ sends spec (bare failed minus_one)
          ∷ emits command_unsupported spec
          ∷ []))

  unfoldable pub run_script : Option (List JobEffect)
  unfolding Runner.run
  run_script = elim (Runner.run refuses m.host spec) [
    | none ↦ none
    | some (es, res) ↦ some (map (λ e. does e) es)
  ]

  unfoldable pub execute : Option (List JobEffect)
  unfolding run_script run_inventory_refresh execute_patch execute_update unsupported_job
  execute =
      if text_eq spec.kind kind_script_run || text_eq spec.kind []
      then run_script
      else if text_eq spec.kind kind_inventory_refresh
      then some (run_inventory_refresh m spec)
      else if text_eq spec.kind kind_patch_scan || text_eq spec.kind kind_patch_install
      then execute_patch refuses m.json m.patch m.duration_ms spec
      else if text_eq spec.kind kind_agent_update
      then execute_update refuses m.update m.duration_ms spec
      else unsupported_job

  unfoldable pub job_panicked : Text → Option (List JobEffect)
  unfolding stderr_then sends
  job_panicked cause =
      stderr_then refuses spec
        (codes "everwas-agent: job failed with an internal error: " ++ cause ++ 10 ∷ [])
        (sends spec (bare failed minus_one) ∷ emits job_panicked_event spec ∷ [])

  -- `panics` is after how many effects the job panics, and with what.
  unfoldable pub run_job : Option (ℕ × Text) → Option (List JobEffect)
  unfolding execute job_panicked
  run_job panics = elim execute [
    | none ↦ none
    | some es ↦ elim panics [
      | none ↦ some es
      | some (n, cause) ↦ after (take n es) (job_panicked cause)
    ]
  ]

  -- The end of a job that is still running when the agent stops.
  unfoldable pub report_interrupted : Option (List JobEffect)
  unfolding stderr_then sends
  report_interrupted =
      stderr_then refuses spec
        (codes "everwas-agent: the agent stopped before this job finished" ++ 10 ∷ [])
        (sends spec (bare cancelled minus_one) ∷ [])
