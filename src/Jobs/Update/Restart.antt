-- ===== src/Jobs/Update/Restart.antt =====
-- The job of agent/internal/jobs/update_wire.go over the pipeline of agent/internal/update/update.go: when
-- the process is asked to end.
use everwas.Base.{
  ◌∙◌, ℕ, ◌≡◌, refl, Bool, true, false, Option, none, some, List, [], ◌∷◌, ◌++◌, map, any_of,
  all_of, arith, ◌⊎◌, inl, inr, Option-cases, Sum-cases,
}
use everwas.Base.Text.{Text, codes, text_eq}
use everwas.Scripts.Chunk.{Chunk}
use everwas.Scripts.Job.{JobSpec, Result}
use everwas.Update.State.{is_empty}
use everwas.Update.Disk.{Disk}
use everwas.Update.Tracker.{is_denied}
use everwas.Update.Verify.{PublicKey}
use everwas.Update.Apply.{
  Host, Request, Options, Outcome, Applied, applied, apply, is_finalizing, is_invalid,
}
use everwas.Update.Apply
use everwas.Update.Apply.Checks.{is_applied, Vouched, apply-Vouched}
use everwas.Jobs.Failure.{Failure}
use everwas.Jobs.Effects.{
  applies, agent_updated, JobEffect, after, says, sends, emits, output_effect,
}
use everwas.Jobs.Effects.Trace.{is_exit, quiet, quiet-outputs, stderr_then_lem}
use everwas.Jobs.Update.{
  no_request, minus_one, failed, bare, phase_running, note, phase_started, note_status,
  phase_finished, UpdateDeps, PipelineEnd, execute_update, finish, ready, update_outcome,
  exit_effects,
}

-- A failure of the pipeline as an error. Whether the download or a request ended with the context, and the
-- text, are parameters.
unfoldable pub failure_of : Bool → Bool → Text → Apply.Failure → Failure
failure_of deadline cancelled text f = record {
  is_busy = false;
  is_deadline = deadline;
  is_cancelled = cancelled;
  is_already_current = elim f [ Apply.already_current ↦ true | _ ↦ false ];
  is_version_denied = elim f [ Apply.version_denied ↦ true | _ ↦ false ];
  is_finalize_pending = elim f [ Apply.finalize_pending ↦ true | _ ↦ false ];
  text = text;
}

abbrev pub options_of : UpdateDeps → Options
options_of d = record { state_dir = d.state_dir; target_path = []; current_version = d.version }

unfoldable pub pipeline_end : Bool → Bool → Text → Outcome → PipelineEnd
unfolding failure_of
pipeline_end deadline cancelled text (applied a) = (some a, none)
pipeline_end deadline cancelled text (Apply.failed f) =
    (none, some (failure_of deadline cancelled text f))

-- The hooks of a module over the pipeline.
unfoldable pub wired : UpdateDeps → Host → Disk → Bool → Bool → Text → UpdateDeps
unfolding pipeline_end apply
wired d h disk deadline cancelled text = record d {
  pipeline = λ req. pipeline_end deadline cancelled text (apply h req (options_of d) disk).0;
}

-- What has been checked of a request whose artifact runs after the restart.
abbrev pub IsVouched : Host → Request → Options → Disk → Type 0
IsVouched h req opts disk =
    (is_invalid h req opts ≡ false)
    × ((is_empty opts.current_version ≡ true) ⊎ (text_eq req.version opts.current_version ≡ false))
    × ((req.force ≡ true)
        ⊎ ((is_denied h.faults req.version disk ≡ false) × (is_finalizing h req opts disk ≡ false)))
    × ((body : Text) × ((trusted : List PublicKey) × Vouched h req opts body trusted))

exits-quiet :
    (es fs : List JobEffect)
    → all_of quiet es ≡ true
    → any_of is_exit (es ++ fs) ≡ any_of is_exit fs
exits-quiet [] fs h = refl
exits-quiet (e ∷ es) fs h = ground (arith, h, exits-quiet es fs)

exits-sends :
    (spec : JobSpec) (res : Result) (es : List JobEffect)
    → any_of is_exit (sends spec res ∷ es) ≡ any_of is_exit es
unfolding sends
exits-sends spec res es = refl

-- Whether the end of a job asks the process to end depends only on its last effects.
finish-exits :
    (refuses : Chunk → Bool) (d : UpdateDeps) (duration_ms : ℕ) (spec : JobSpec)
    (before : List JobEffect) (res : Result) (summary : Text) (req : Request) (out : Option Applied)
    (es : List JobEffect)
    → all_of quiet before ≡ true
    → after before (finish refuses d duration_ms spec res summary req out) ≡ some es
    → any_of is_exit es
      ≡ any_of is_exit (exit_effects d req out (record res { duration_ms = duration_ms }))
unfolding finish
finish-exits refuses d duration_ms spec before res summary req out es q e =
    let timed : Result = record res { duration_ms = duration_ms } in
    let rest =
      says 100 phase_finished (note_status timed.status)
      ∷ sends spec timed
      ∷ emits agent_updated spec
      ∷ exit_effects d req out timed in
    let (cs, f) =
      stderr_then_lem refuses spec (codes "everwas-agent: " ++ summary ++ 10 ∷ []) rest in
    let e' : some (before ++ (map output_effect cs ++ rest)) ≡ some es = rw f at e in
    let same : before ++ (map output_effect cs ++ rest) ≡ es = ground (arith, e') in
    rw (← same) (
      exits-quiet before _ q
      ∙ exits-quiet (map output_effect cs) rest (quiet-outputs cs)
      ∙ exits-sends spec timed (emits agent_updated spec ∷ exit_effects d req out timed))

applied-IsVouched :
    (h : Host) (req : Request) (opts : Options) (disk : Disk) (a : Applied)
    → (apply h req opts disk).0 ≡ applied a
    → IsVouched h req opts disk
applied-IsVouched h req opts disk a e = elim (apply-Vouched h req opts disk) [
  | inl r ↦ let no : is_applied (applied a) ≡ false = rw e at r.1 in absurd (ground (arith, no))
  | inr v ↦ v
]

finish-none :
    (refuses : Chunk → Bool) (d : UpdateDeps) (duration_ms : ℕ) (spec : JobSpec)
    (before : List JobEffect) (res : Result) (summary : Text) (req : Request) (es : List JobEffect)
    → all_of quiet before ≡ true
    → after before (finish refuses d duration_ms spec res summary req none) ≡ some es
    → any_of is_exit es ≡ false
unfolding exit_effects
finish-none refuses d duration_ms spec before res summary req es q e =
    finish-exits refuses d duration_ms spec before res summary req none es q e

Outcome-cases :
    (o : Outcome) → ((a : Applied) × (o ≡ applied a)) ⊎ ((f : Apply.Failure) × (o ≡ Apply.failed f))
Outcome-cases (applied a) = inl (a, refl)
Outcome-cases (Apply.failed f) = inr (f, refl)

ready-none : (d : UpdateDeps) → ready d ≡ none → d.restart ≡ true
unfolding ready
ready-none d h = ground (arith, h)

module _ (refuses : Chunk → Bool) (d : UpdateDeps) (h : Host) (disk : Disk)
    (deadline cancelled : Bool) (text : Text) (duration_ms : ℕ) (spec : JobSpec)
    (es : List JobEffect) where
  ran-IsVouched :
      (req : Request)
      → let w = wired d h disk deadline cancelled text in
        let (out, e) = w.pipeline req in
        let (res, summary) = update_outcome d.version req out e in
        after
            (says 0 phase_started (note spec.kind)
              ∷ says 10 phase_running (note (codes "downloading " ++ req.version))
              ∷ applies
              ∷ [])
            (finish refuses w duration_ms spec res summary req out)
          ≡ some es
        → any_of is_exit es ≡ true
        → IsVouched h req (options_of d) disk
  unfolding wired pipeline_end
  ran-IsVouched req e x = elim (Outcome-cases (apply h req (options_of d) disk).0) [
    | inl (a, o) ↦ applied-IsVouched h req (options_of d) disk a o
    | inr (f, o) ↦
        let quit =
          finish-none refuses (wired d h disk deadline cancelled text) duration_ms spec
            (says 0 phase_started (note spec.kind)
              ∷ says 10 phase_running (note (codes "downloading " ++ req.version))
              ∷ applies
              ∷ [])
            (update_outcome d.version req none (some (failure_of deadline cancelled text f))).0
            (update_outcome d.version req none (some (failure_of deadline cancelled text f))).1 req
            es refl (rw o at e) in
        absurd (ground (arith, quit, x))
  ]

  -- The process is asked to end only where the request could be decoded and the restart hook is set, and
  -- where the request was complete, for another version, forced or neither denied nor over a pending
  -- finalizer, and its artifact has the digest and is signed by a trusted key.
  pub restart-IsVouched :
      execute_update refuses (wired d h disk deadline cancelled text) duration_ms spec ≡ some es
      → any_of is_exit es ≡ true
      → (req : Request) × (d.decode_request spec.body ≡ inr req)
        × (d.restart ≡ true)
        × IsVouched h req (options_of d) disk
  unfolding execute_update wired
  restart-IsVouched e x =
      let w = wired d h disk deadline cancelled text in
      let start = says 0 phase_started (note spec.kind) ∷ [] in
      elim (Sum-cases (d.decode_request spec.body)) [
        | inl (f, q) ↦
            let quit =
              finish-none refuses w duration_ms spec start (bare failed minus_one)
                (codes "agent update: bad request payload: " ++ f.text) no_request es refl
                (rw (execute_update, q) at e) in
            absurd (ground (arith, quit, x))
        | inr (req, q) ↦ elim (Option-cases (ready w)) [
          | inr (f, k) ↦
              let quit =
                finish-none refuses w duration_ms spec start (bare failed minus_one)
                  (codes "agent update: " ++ f) req es refl (rw (execute_update, q, k) at e) in
              absurd (ground (arith, quit, x))
          | inl k ↦ (req, q, ready-none w k, ran-IsVouched req (rw (execute_update, q, k) at e) x)
        ]
      ]
