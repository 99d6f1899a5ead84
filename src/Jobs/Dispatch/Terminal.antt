-- ===== src/Jobs/Dispatch/Terminal.antt =====
-- How a job of any kind ends, agent/internal/jobs/jobs.go.
use everwas.Jobs.Effects.Ends.{
  IsTerminal, Ends, sends-IsTerminal, quiet-IsTerminal, stderr_then-Ends,
}
use everwas.Jobs.Patch.{kind_patch_scan, kind_patch_install}
use everwas.Jobs.Patch.Ends.{execute_patch-Ends}
use everwas.Jobs.Update.Ends.{execute_update-Ends}
use everwas.Base.{
  ℕ, zero, suc, ◌≡◌, refl, ap, ◌∙◌, Bool, true, not, ◌||◌, Option, none, some, List, [], ◌∷◌, ◌++◌,
  map, take, all_of, arith, Bool-cases, inl, inr,
}
use everwas.Base.Text.{Text, codes, text_eq}
use everwas.Scripts.Chunk.{Chunk}
use everwas.Scripts.Job.{JobSpec}
use everwas.Scripts.Runner.{note, note_status, phase_started, phase_finished, Effect}
use everwas.Scripts.Runner.Trace.{result_in, gather}
use everwas.Scripts.Runner.Terminal.{run_reports}
use everwas.Jobs.Effects.{JobEffect, does, emits, sends, output_effect, says}
use everwas.Jobs.Effects.Trace.{
  is_nil, job_result_in, job_results, orderly, quiet, quiet-outputs, stderr_then_lem,
}
use everwas.Jobs.Dispatch.{
  cancelled, job_panicked_event, command_unsupported, minus_one, bare, failed, Failure,
  kind_script_run, kind_inventory_refresh, kind_agent_update, refresh_effects, refresh_result,
  Surroundings, execute, run_script, run_inventory_refresh, unsupported_job, job_panicked,
  report_interrupted,
}

job_results-does : (es : List Effect) → job_results (map (λ e. does e) es) ≡ gather result_in es
job_results-does [] = refl
job_results-does (e ∷ es) = ap (λ t. result_in e ++ t) (job_results-does es)

orderly-does : (sent : Bool) (es : List Effect) → orderly sent (map (λ e. does e) es) ≡ true
orderly-does sent [] = refl
orderly-does sent (e ∷ es) = ground (arith, orderly-does (sent || not (is_nil (result_in e))) es)

run_script-Ends :
    (refuses : Chunk → Bool) (m : Surroundings) (spec : JobSpec)
    → Ends spec (run_script refuses m spec)
unfolding run_script
run_script-Ends refuses m spec =
    let (es, res, e, only, entry, _, _) = run_reports refuses m.host spec in
    (
      map (λ e. does e) es,
      rw (run_script, e) refl,
      record {
        res = res;
        only = job_results-does es ∙ only;
        entry = entry;
        ordered = λ sent. orderly-does sent es;
      },
    )

refresh-quiet : (hook : Option (Option Failure)) → all_of quiet (refresh_effects hook) ≡ true
refresh-quiet none = refl
refresh-quiet (some e) = refl

run_inventory_refresh-IsTerminal :
    (m : Surroundings) (spec : JobSpec) → IsTerminal spec (run_inventory_refresh m spec)
unfolding run_inventory_refresh
run_inventory_refresh-IsTerminal m spec =
    quiet-IsTerminal spec (says 0 phase_started (note spec.kind) ∷ []) _ refl (
      quiet-IsTerminal spec (refresh_effects m.refresh) _ (refresh-quiet m.refresh) (
        quiet-IsTerminal spec
          (says 100 phase_finished (note_status (refresh_result m.refresh).status) ∷ []) _ refl
          (sends-IsTerminal spec (record (refresh_result m.refresh) { duration_ms = m.duration_ms })
            [] refl refl)))

unsupported_job-Ends :
    (refuses : Chunk → Bool) (m : Surroundings) (spec : JobSpec)
    → Ends spec (unsupported_job refuses m spec)
unfolding unsupported_job
unsupported_job-Ends refuses m spec =
    stderr_then-Ends refuses spec (says 0 phase_started (note spec.kind) ∷ []) _
      (says 100 phase_finished (note_status failed) ∷ []) (bare failed minus_one)
      (emits command_unsupported spec ∷ []) refl refl refl refl

pub execute-Ends :
    (refuses : Chunk → Bool) (m : Surroundings) (spec : JobSpec)
    → Ends spec (execute refuses m spec)
unfolding execute
execute-Ends refuses m spec =
    elim (Bool-cases (text_eq spec.kind kind_script_run || text_eq spec.kind [])) [
      | inl a ↦ rw (execute, a) (run_script-Ends refuses m spec)
      | inr a ↦ elim (Bool-cases (text_eq spec.kind kind_inventory_refresh)) [
        | inl b ↦
            rw (execute, a, b)
              (run_inventory_refresh m spec, refl, run_inventory_refresh-IsTerminal m spec)
        | inr b ↦
            elim (Bool-cases
              (text_eq spec.kind kind_patch_scan || text_eq spec.kind kind_patch_install)) [
                | inl c ↦
                    rw (execute, a, b, c)
                      (execute_patch-Ends refuses m.json m.patch m.duration_ms spec)
                | inr c ↦ elim (Bool-cases (text_eq spec.kind kind_agent_update)) [
                  | inl d ↦
                      rw (execute, a, b, c, d)
                        (execute_update-Ends refuses m.update m.duration_ms spec)
                  | inr d ↦ rw (execute, a, b, c, d) (unsupported_job-Ends refuses m spec)
                ]
              ]
      ]
    ]

pub job_panicked-Ends :
    (refuses : Chunk → Bool) (m : Surroundings) (spec : JobSpec) (cause : Text)
    → Ends spec (job_panicked refuses m spec cause)
unfolding job_panicked
job_panicked-Ends refuses m spec cause =
    let rest = sends spec (bare failed minus_one) ∷ emits job_panicked_event spec ∷ [] in
    let (cs, e) =
      stderr_then_lem refuses spec
        (codes "everwas-agent: job failed with an internal error: " ++ cause ++ 10 ∷ []) rest in
    (
      map output_effect cs ++ rest,
      e,
      quiet-IsTerminal spec (map output_effect cs) rest (quiet-outputs cs)
          (sends-IsTerminal spec (bare failed minus_one) _ refl refl),
    )

-- A job that the agent leaves behind when it stops has its result from the agent.
report_interrupted-Ends :
    (refuses : Chunk → Bool) (m : Surroundings) (spec : JobSpec)
    → Ends spec (report_interrupted refuses m spec)
unfolding report_interrupted
report_interrupted-Ends refuses m spec =
    let rest = sends spec (bare cancelled minus_one) ∷ [] in
    let (cs, e) =
      stderr_then_lem refuses spec
        (codes "everwas-agent: the agent stopped before this job finished" ++ 10 ∷ []) rest in
    (
      map output_effect cs ++ rest,
      e,
      quiet-IsTerminal spec (map output_effect cs) rest (quiet-outputs cs)
          (sends-IsTerminal spec (bare cancelled minus_one) _ refl refl),
    )

pub orderly-take :
    (n : ℕ) (sent : Bool) (es : List JobEffect)
    → orderly sent es ≡ true
    → orderly sent (take n es) ≡ true
orderly-take zero sent es h = refl
orderly-take (suc n) sent [] h = refl
orderly-take (suc n) sent (e ∷ es) h =
    ground (arith, h, orderly-take n (sent || not (is_nil (job_result_in e))) es)

pub orderly-append :
    (sent : Bool) (es fs : List JobEffect)
    → orderly sent es ≡ true
    → ((later : Bool) → orderly later fs ≡ true)
    → orderly sent (es ++ fs) ≡ true
orderly-append sent [] fs h k = k sent
orderly-append sent (e ∷ es) fs h k =
    ground (arith, h, orderly-append (sent || not (is_nil (job_result_in e))) es fs _ k)
