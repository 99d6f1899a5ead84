-- ===== src/Scripts/Runner.antt =====
-- agent/internal/scripts/runner.go and publish.go: one run of a job as the list of what it does. What the
-- operating system and the publisher answer is a parameter.
pub mod Trace
mod Tests
pub mod Execute
pub mod Terminal
pub mod Output
use everwas.Base.{
  ℕ, zero, suc, ◌+◌, ◌≡◌, Bool, true, false, Option, none, some, List, [], ◌∷◌, ◌++◌, map,
  if◌then◌else◌, ◌⊎◌, inl, inr,
}
use everwas.Base.Int.{ℤ, pos}
use everwas.Base.Text.{Text, codes, text_eq}
use everwas.Scripts.Chunk.{
  Chunk, ChunkSink, Emitted, new_chunk_sink, write, eof, is_truncated, stream_stdout, stream_stderr,
}
use everwas.Scripts.Chunk.Capture.{Call, call_write, call_stop}
use everwas.Scripts.Chunk.Capture
use everwas.Scripts.Env.{Env, scrub_env}
use everwas.Scripts.Interp.{Os, Interp, argv, resolve_with}
use everwas.Scripts.Job.{
  cancelled, timeout, JobSpec, Result, Status, WaitError, bare, failed, minus_one, result,
  set_reasons,
}

pub data Phase : Type 0 where
  phase_started phase_running phase_finished : Phase

-- The note of a progress message: a text, or the status of the result.
pub data Note : Type 0 where
  note : Text → Note
  note_status : Status → Note

-- What is done, in order, to the outside. `publishes` is the terminal result.
pub data Effect : Type 0 where
  progress : ℕ → Phase → Note → Effect
  outputs : Chunk → Effect
  publishes : Text → Result → Effect
  audits : JobSpec → Result → Effect
  stages opens_pipes registers kills : Effect
  starts : List Text → List Text → Effect
  unregisters releases_guard closes_pipes removes_stage : Effect

-- Who calls `kill`: the timer, the context of the job, or `Cancel`.
pub data Ask : Type 0 where
  timer_fires ctx_done cancel_called : Ask

abbrev pub reason_of : Ask → Status
reason_of timer_fires = timeout
reason_of ctx_done = cancelled
reason_of cancel_called = cancelled

-- The host: `stage_error`, `pipe_error` and `start_error` are the errors of the calls, `script` the path of
-- the staged script and `writes` the reads of the two pumps, each one a block of a stream. Where the pipes
-- are not drained in time, `late` is what the pumps read after. `asks` are the calls of `kill` before the
-- result is made, in order; a call after it finds a process that has ended.
pub record Host : Type 0 where
  pub os : Os
  pub environ : List Text
  pub look : Text → Option Text
  pub script : Text
  pub stage_error : Option Text
  pub pipe_error : Option Text
  pub start_error : Option Text
  pub writes : List (Text × Text)
  pub drained : Bool
  pub late : List (Text × Text)
  pub asks : List Ask
  pub wait_error : WaitError
  pub duration_ms : ℕ

-- What is done before the process runs, what its deferred calls do, and the error or the interpreter's path.
pub record Prepared : Type 0 where
  pub before : List Effect
  pub deferred : List Effect
  pub outcome : Text ⊎ Text

unfoldable pub prepare : Host → JobSpec → Prepared
prepare h job =
    if text_eq job.body []
    then record { before = []; deferred = []; outcome = inl (codes "empty script body") }
    else elim (resolve_with h.os job.shell h.look) [
      | inl e ↦ record { before = []; deferred = []; outcome = inl e }
      | inr interp ↦ elim h.stage_error [
        | some e ↦ record {
          before = [];
          deferred = [];
          outcome = inl (codes "stage script: " ++ e);
        }
        | none ↦ elim h.pipe_error [
          | some e ↦ record { before = stages ∷ []; deferred = removes_stage ∷ []; outcome = inl e }
          | none ↦ elim h.start_error [
            | some e ↦ record {
              before = stages ∷ opens_pipes ∷ [];
              deferred = closes_pipes ∷ removes_stage ∷ [];
              outcome = inl (codes "start " ++ interp.path ++ codes ": " ++ e);
            }
            | none ↦ record {
              before =
                  stages
                  ∷ opens_pipes
                  ∷ starts (argv interp h.script) (scrub_env h.environ job.env)
                  ∷ [];
              deferred = unregisters ∷ releases_guard ∷ closes_pipes ∷ removes_stage ∷ [];
              outcome = inr interp.path;
            }
          ]
        ]
      ]
    ]

abbrev pub writes_of : List (Text × Text) → List Call
writes_of [] = []
writes_of (w ∷ ws) = call_write w.0 w.1 ∷ writes_of ws

-- The calls of the sink: where the pipes stay open it is stopped before the rest is read.
abbrev pub sink_calls : Host → List Call
sink_calls h =
    if h.drained then writes_of h.writes else writes_of h.writes ++ call_stop ∷ writes_of h.late

abbrev pub kill_times : ℕ → List Effect
kill_times zero = []
kill_times (suc n) = kills ∷ kill_times n

-- What a run has done when it has its result.
pub record Executed : Type 0 where
  pub effects : List Effect
  pub result : Result
  pub sink : ChunkSink

-- The message of `abort` on stderr.
abbrev pub abort_text : Text → Text
abort_text e = codes "everwas-agent: " ++ e ++ 10 ∷ []

module _ (refuses : Chunk → Bool) where
  unfoldable pub abort : Text → ChunkSink → Option Emitted
  abort e s = write refuses stream_stderr (abort_text e) s

  unfoldable pub execute_prepared : Prepared → Host → JobSpec → ChunkSink → Option Executed
  unfolding abort
  execute_prepared p h job s =
      let start = progress 0 phase_started (note job.shell) in
      elim p.outcome [
        | inl e ↦ elim (abort e s) [
          | none ↦ none
          | some o ↦ some (record {
            effects = start ∷ (p.before ++ (map outputs o.chunks ++ p.deferred));
            result = bare failed minus_one;
            sink = o.sink;
          })
        ]
        | inr path ↦
            let reasons = set_reasons (map reason_of h.asks) none in
            elim (Capture.run refuses (sink_calls h) s) [
              | none ↦ none
              | some o ↦ some (record {
                effects =
                    start
                    ∷ (p.before
                        ++ progress 10 phase_running (note path)
                          ∷ registers
                          ∷ (map outputs o.chunks ++ (kill_times reasons.1 ++ p.deferred)));
                result = result h.wait_error reasons.0;
                sink = o.sink;
              })
            ]
      ]

  unfoldable pub execute : Host → JobSpec → ChunkSink → Option Executed
  unfolding prepare execute_prepared
  execute h job s = execute_prepared (prepare h job) h job s

  -- The end of `Run`: the result is completed, both streams are closed, and the result is sent.
  unfoldable pub report : Host → JobSpec → Executed → List Effect × Result
  report h job x =
      let res : Result = record x.result {
        duration_ms = h.duration_ms;
        truncated = is_truncated x.sink;
        entry_id = job.entry_id;
      } in
      let out = eof refuses stream_stdout x.sink in
      let err = eof refuses stream_stderr out.sink in
      (
        x.effects
            ++ (map outputs (out.chunks ++ err.chunks)
                ++ progress 100 phase_finished (note_status res.status)
                  ∷ publishes job.job_id res
                  ∷ audits job res
                  ∷ []),
        res,
      )

  unfoldable pub run : Host → JobSpec → Option (List Effect × Result)
  unfolding execute report
  run h job = elim (execute h job (new_chunk_sink job.job_id job.entry_id)) [
    | none ↦ none
    | some x ↦ some (report h job x)
  ]
