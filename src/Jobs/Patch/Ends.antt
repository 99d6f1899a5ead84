-- ===== src/Jobs/Patch/Ends.antt =====
-- The end of the jobs of agent/internal/jobs/patch_wire.go.
use everwas.Scripts.Runner.{note, note_status, phase_started, phase_finished}
use everwas.Jobs.Effects.Ends.{Ends, stderr_then-Ends}
use everwas.Base.{
  ℕ, ◌≡◌, refl, Bool, true, List, [], ◌∷◌, map, all_of, Bool-cases, Option-cases, Sum-cases, inl,
  inr,
}
use everwas.Base.Text.{Text, text_eq}
use everwas.Scripts.Chunk.{Chunk}
use everwas.Scripts.Job.{JobSpec}
use everwas.Jobs.Effects.{says}
use everwas.Jobs.Effects.Trace.{quiet, all_of-append}
use everwas.Jobs.Patch.{
  kind_patch_scan, kind_patch_install, parse_patch_ids, Json, PatchDeps, InstallProgress,
}
use everwas.Jobs.Patch.Handlers.{
  execute_patch, patch_work, handle_patch_install, handle_patch_scan, step_effect, refresh_effects,
  scan_work, install_work, other_work,
}

steps-quiet : (ps : List InstallProgress) → all_of quiet (map step_effect ps) ≡ true
steps-quiet [] = refl
steps-quiet (p ∷ ps) = steps-quiet ps

refresh-quiet : (deps : PatchDeps) → all_of quiet (refresh_effects deps) ≡ true
refresh-quiet deps = elim (Option-cases deps.refresh_patch_state) [
  | inl q ↦ rw q refl
  | inr (r, q) ↦ rw q refl
]

scan-quiet : (deps : PatchDeps) → all_of quiet (handle_patch_scan deps).0 ≡ true
unfolding handle_patch_scan
scan-quiet deps = elim (Option-cases deps.refresh_patch_state) [
  | inl q ↦ rw q refl
  | inr (r, q) ↦ rw q refl
]

install-quiet :
    (deps : PatchDeps) (ids : List Text) → all_of quiet (handle_patch_install deps ids).0 ≡ true
unfolding handle_patch_install
install-quiet deps [] = refl
install-quiet deps (id ∷ ids) = elim (Option-cases deps.manager) [
  | inl q ↦ rw q refl
  | inr (m, q) ↦ elim (Sum-cases m) [
    | inl (e, k) ↦ rw (q, k) refl
    | inr (install, k) ↦
        rw (q, k)
          (all_of-append quiet (map step_effect (install (id ∷ ids)).steps) (refresh_effects deps)
            (steps-quiet (install (id ∷ ids)).steps) (refresh-quiet deps))
  ]
]

patch_work-quiet :
    (json : Json) (deps : PatchDeps) (spec : JobSpec)
    → all_of quiet (patch_work json deps spec).0 ≡ true
unfolding patch_work scan_work install_work other_work
patch_work-quiet json deps spec = elim (Bool-cases (text_eq spec.kind kind_patch_scan)) [
  | inl scan ↦ rw scan (all_of-append quiet (handle_patch_scan deps).0 _ (scan-quiet deps) refl)
  | inr other ↦ elim (Bool-cases (text_eq spec.kind kind_patch_install)) [
    | inl install ↦
        let ids = parse_patch_ids json spec.body in
        rw (other, install)
          (all_of-append quiet (handle_patch_install deps ids).0 _ (install-quiet deps ids) refl)
    | inr neither ↦ rw (other, neither) refl
  ]
]

pub execute_patch-Ends :
    (refuses : Chunk → Bool) (json : Json) (deps : PatchDeps) (duration_ms : ℕ) (spec : JobSpec)
    → Ends spec (execute_patch refuses json deps duration_ms spec)
unfolding execute_patch
execute_patch-Ends refuses json deps duration_ms spec =
    let (did, summary, res) = patch_work json deps spec in
    stderr_then-Ends refuses spec (says 0 phase_started (note spec.kind) ∷ did) _
      (says 100 phase_finished (note_status res.status) ∷ [])
      (record res { duration_ms = duration_ms }) [] (patch_work-quiet json deps spec) refl refl refl
