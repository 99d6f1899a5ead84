-- ===== src/Scripts/Runner/Tests.antt =====
-- Runs of agent/internal/scripts/runner.go at concrete inputs.
use everwas.Base.{◌≡◌, refl, Bool, false, none, some, List, [], ◌∷◌, ltb, length, take}
use everwas.Base.Int.{pos}
use everwas.Base.Text.{codes, text_eq, trim_space, trim_left, trim_right, is_space}
use everwas.Scripts.Chunk.{
  after, Chunk, max_job_output_bytes, new_chunk_sink, write, write_loop, send, eof, stop,
  is_truncated,
}
use everwas.Scripts.Chunk.Frames.{payload}
use everwas.Scripts.Chunk.Capture.{Numbered, handed_over}
use everwas.Scripts.Chunk.Capture
use everwas.Scripts.Interp.{unix, resolve_with, canonical_shell, find_spec, first_found}
use everwas.Scripts.Job.{
  bare, failed, minus_one, exit_of, is_zero, JobSpec, Result, no_error, result, set_reasons,
  set_reason,
}
use everwas.Scripts.Runner.{Host, Effect, ctx_done, prepare, execute, execute_prepared, report, run}
use everwas.Scripts.Runner.Trace.{gather, chunk_in}
use everwas.Scripts.Runner.Execute.{calls_of}
use everwas.Scripts.Runner.Output.{run_outputs}

abbrev accepts : Chunk → Bool
accepts c = false

abbrev job : JobSpec
job = record {
  job_id = codes "j";
  kind = codes "script.run";
  shell = codes "sh";
  body = codes "echo hi; sleep 9";
  timeout_s = pos 5;
  env = [];
  requested_by = [];
  entry_id = codes "nightly";
}

-- The job writes to both streams and is cancelled; a descendant keeps the pipes open.
abbrev host : Host
host = record {
  os = unix;
  environ = codes "PATH=/bin" ∷ codes "TOKEN=secret" ∷ [];
  look = λ name. some (codes "/bin/sh");
  script = codes "/work/j/script.sh";
  stage_error = none;
  pipe_error = none;
  start_error = none;
  writes = (codes "stdout", codes "hi") ∷ (codes "stderr", codes "no") ∷ [];
  drained = false;
  late = (codes "stdout", codes "late") ∷ [];
  asks = ctx_done ∷ [];
  wait_error = no_error;
  duration_ms = 7;
}

abbrev done : List Effect × Result
done = elim (run accepts host job) [ none ↦ ([], bare failed minus_one) | some r ↦ r ]

run_outputs_example :
    let all = handed_over (calls_of host (prepare host job).outcome) in
    Numbered 0 (gather chunk_in done.0)
    × (payload (gather chunk_in done.0) ≡ take max_job_output_bytes all)
    × (done.1.truncated ≡ ltb max_job_output_bytes (length all))
unfolding run execute execute_prepared prepare report new_chunk_sink write write_loop send eof stop
    is_truncated after exit_of is_zero resolve_with canonical_shell find_spec first_found text_eq
    trim_space trim_left trim_right is_space Capture.run Capture.step result set_reasons set_reason
run_outputs_example = run_outputs accepts host job done.0 done.1 refl refl
