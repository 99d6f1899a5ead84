-- ===== src/Jobs/Update/Ends.antt =====
-- The end of the job of agent/internal/jobs/update_wire.go.
use everwas.Scripts.Runner.{phase_running, note, note_status, phase_started, phase_finished}
use everwas.Jobs.Effects.Ends.{Ends, stderr_then-Ends}
use everwas.Base.{
  ℕ, ◌≡◌, refl, Bool, true, Option, none, some, List, [], ◌∷◌, ◌++◌, all_of, arith, Option-cases,
  Sum-cases, inl, inr,
}
use everwas.Base.Text.{Text, codes}
use everwas.Scripts.Chunk.{Chunk}
use everwas.Scripts.Job.{bare, failed, minus_one, JobSpec, Result}
use everwas.Jobs.Effects.{applies, agent_updated, JobEffect, emits, says, after}
use everwas.Jobs.Effects.Trace.{job_results, orderly, quiet}
use everwas.Jobs.Update.{
  no_request, update_outcome, Applied, Request, ready, UpdateDeps, execute_update, exit_effects,
  finish,
}

exit_effects-last :
    (d : UpdateDeps) (req : Request) (out : Option Applied) (res : Result)
    → (job_results (exit_effects d req out res) ≡ [])
      × (orderly true (exit_effects d req out res) ≡ true)
unfolding exit_effects
exit_effects-last d req none res = (refl, refl)
exit_effects-last d req (some out) res = ground arith

finish-Ends :
    (refuses : Chunk → Bool) (d : UpdateDeps) (duration_ms : ℕ) (spec : JobSpec)
    (before : List JobEffect) (res : Result) (summary : Text) (req : Request) (out : Option Applied)
    → all_of quiet before ≡ true
    → Ends spec (after before (finish refuses d duration_ms spec res summary req out))
unfolding finish
finish-Ends refuses d duration_ms spec before res summary req out q =
    let timed : Result = record res { duration_ms = duration_ms } in
    let (n, o) = exit_effects-last d req out timed in
    stderr_then-Ends refuses spec before _ (says 100 phase_finished (note_status res.status) ∷ [])
      timed (emits agent_updated spec ∷ exit_effects d req out timed) q refl n o

pub execute_update-Ends :
    (refuses : Chunk → Bool) (d : UpdateDeps) (duration_ms : ℕ) (spec : JobSpec)
    → Ends spec (execute_update refuses d duration_ms spec)
unfolding execute_update
execute_update-Ends refuses d duration_ms spec = elim (Sum-cases (d.decode_request spec.body)) [
  | inl (e, q) ↦
      rw (execute_update, q)
        (finish-Ends refuses d duration_ms spec (says 0 phase_started (note spec.kind) ∷ [])
          (bare failed minus_one) (codes "agent update: bad request payload: " ++ e.text) no_request
          none refl)
  | inr (req, q) ↦ elim (Option-cases (ready d)) [
    | inr (e, k) ↦
        rw (execute_update, q, k)
          (finish-Ends refuses d duration_ms spec (says 0 phase_started (note spec.kind) ∷ [])
            (bare failed minus_one) (codes "agent update: " ++ e) req none refl)
    | inl k ↦ rw (execute_update, q, k) (ran req)
  ]
]
  where
    ran :
        (req : Request)
        → Ends spec (
            after
              (says 0 phase_started (note spec.kind)
                ∷ says 10 phase_running (note (codes "downloading " ++ req.version))
                ∷ applies
                ∷ [])
              (finish refuses d duration_ms spec
                (update_outcome d.version req (d.pipeline req).0 (d.pipeline req).1).0
                (update_outcome d.version req (d.pipeline req).0 (d.pipeline req).1).1
                req
                (d.pipeline req).0))
    ran req =
        finish-Ends refuses d duration_ms spec
          (says 0 phase_started (note spec.kind)
            ∷ says 10 phase_running (note (codes "downloading " ++ req.version))
            ∷ applies
            ∷ [])
          (update_outcome d.version req (d.pipeline req).0 (d.pipeline req).1).0
          (update_outcome d.version req (d.pipeline req).0 (d.pipeline req).1).1 req
          (d.pipeline req).0 refl
