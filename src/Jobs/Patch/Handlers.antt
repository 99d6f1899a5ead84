-- ===== src/Jobs/Patch/Handlers.antt =====
-- The handlers of agent/internal/jobs/patch_wire.go, as what they do in order.
use everwas.Base.{
  ℕ, Bool, false, Option, none, some, List, [], ◌∷◌, ◌++◌, map, if◌then◌else◌, length, inl, inr,
}
use everwas.Base.Text.{Text, codes, text_eq}
use everwas.Base.Decimal.{show_ℕ}
use everwas.Scripts.Chunk.{Chunk}
use everwas.Scripts.Interp.{quote}
use everwas.Scripts.Job.{JobSpec, Result}
use everwas.Scripts.Runner.{note, note_status, phase_started, phase_running, phase_finished}
use everwas.Jobs.Failure.{Failure}
use everwas.Jobs.Effects.{
  JobEffect, says, sends, stderr_then, after, emits, refreshes_patch_state, installs, patch_scanned,
  patch_installed,
}
use everwas.Jobs.Patch.{
  Json, PatchDeps, PatchState, InstallResult, InstallProgress, nothing_installed, kind_patch_scan,
  kind_patch_install, parse_patch_ids, patch_result, scan_summary, install_summary,
}

abbrev pub plain_failure : Text → Failure
plain_failure text = record {
  is_busy = false;
  is_deadline = false;
  is_cancelled = false;
  is_already_current = false;
  is_version_denied = false;
  is_finalize_pending = false;
  text = text;
}

abbrev no_state : PatchState
no_state = record { backend = []; patches = []; reboot_required = false }

-- What a handler did, what it found, and its error.
unfoldable pub handle_patch_scan : PatchDeps → List JobEffect × PatchState × Option Failure
handle_patch_scan deps = elim deps.refresh_patch_state [
  | none ↦ (
    [],
    no_state,
    some (plain_failure (codes "patch scan is not wired: RefreshPatchState is nil")),
  )
  | some (state, e) ↦ (
    says 10 phase_running (note (codes "scanning for updates")) ∷ refreshes_patch_state ∷ [],
    state,
    e,
  )
]

abbrev step_note : InstallProgress → Text
step_note p = if text_eq p.update_id [] then p.phase else p.phase ++ codes " " ++ p.update_id

abbrev pub step_effect : InstallProgress → JobEffect
step_effect p = says p.pct phase_running (note (step_note p))

abbrev pub refresh_effects : PatchDeps → List JobEffect
refresh_effects deps = elim deps.refresh_patch_state [
  | none ↦ []
  | some r ↦ refreshes_patch_state ∷ []
]

unfoldable pub handle_patch_install :
    PatchDeps → List Text → List JobEffect × InstallResult × Option Failure
handle_patch_install deps [] =
    ([], nothing_installed, some (plain_failure (codes "patch install job carried no update ids")))
handle_patch_install deps (id ∷ ids) = elim deps.manager [
  | none ↦ (
    [],
    nothing_installed,
    some (plain_failure (codes "patch install is not wired: Manager is nil")),
  )
  | some m ↦ elim m [
    | inl e ↦ ([], nothing_installed, some e)
    | inr install ↦
        let run = install (id ∷ ids) in
        (
          says 5 phase_running
                (note (codes "installing " ++ show_ℕ (length (id ∷ ids)) ++ codes " update(s)"))
              ∷ installs (id ∷ ids)
              ∷ (map step_effect run.steps ++ refresh_effects deps),
          run.result,
          run.failure,
        )
  ]
]

-- The part of a job between its first message and its end: what it did, its summary and its result.
unfoldable pub scan_work : PatchDeps → JobSpec → List JobEffect × Text × Result
unfolding handle_patch_scan patch_result scan_summary
scan_work deps spec =
    let (did, state, e) = handle_patch_scan deps in
    (did ++ emits patch_scanned spec ∷ [], scan_summary state e, patch_result e 0)

unfoldable pub install_work : Json → PatchDeps → JobSpec → List JobEffect × Text × Result
unfolding handle_patch_install patch_result install_summary parse_patch_ids
install_work json deps spec =
    let ids = parse_patch_ids json spec.body in
    let (did, out, e) = handle_patch_install deps ids in
    (
      did ++ emits patch_installed spec ∷ [],
      install_summary ids out e,
      record (patch_result e (length out.failures)) {
        installed = out.installed;
        failures = out.failures;
        reboot_required = out.reboot_required;
      },
    )

unfoldable pub other_work : JobSpec → List JobEffect × Text × Result
unfolding patch_result quote
other_work spec =
    let e = plain_failure (codes "patch handler cannot run job kind " ++ quote spec.kind) in
    ([], e.text, patch_result (some e) 0)

unfoldable pub patch_work : Json → PatchDeps → JobSpec → List JobEffect × Text × Result
unfolding scan_work install_work other_work
patch_work json deps spec =
    if text_eq spec.kind kind_patch_scan
    then scan_work deps spec
    else if text_eq spec.kind kind_patch_install
    then install_work json deps spec
    else other_work spec

unfoldable pub execute_patch :
    (Chunk → Bool) → Json → PatchDeps → ℕ → JobSpec → Option (List JobEffect)
unfolding patch_work stderr_then sends
execute_patch refuses json deps duration_ms spec =
    let (did, summary, res) = patch_work json deps spec in
    let timed : Result = record res { duration_ms = duration_ms } in
    after (says 0 phase_started (note spec.kind) ∷ did) (
      stderr_then refuses spec (codes "everwas-agent: " ++ summary ++ 10 ∷ [])
        (says 100 phase_finished (note_status timed.status) ∷ sends spec timed ∷ []))
