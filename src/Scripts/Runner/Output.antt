-- ===== src/Scripts/Runner/Output.antt =====
-- The output of a run, agent/internal/scripts/runner.go: what the server can put together from its chunks.
use mathlib.Core.Path.{subst}
use everwas.Base.{
  ◌≡◌, refl, ap, ◌∙◌, Bool, false, ◌||◌, some, List, [], ◌∷◌, ◌++◌, map, arith, any_of, length,
  take, ltb, append-nil,
}
use everwas.Scripts.Chunk.{
  Chunk, ChunkSink, Emitted, new_chunk_sink, eof, send, is_truncated, stream_stdout, stream_stderr,
  max_job_output_bytes,
}
use everwas.Scripts.Chunk.Frames.{payload}
use everwas.Scripts.Chunk.Capture.{
  Call, call_write, call_eof, call_stop, handed_over, Numbered, join, step, run-append,
  run_captures,
}
use everwas.Scripts.Chunk.Capture
use everwas.Scripts.Chunk.Refused.{new_chunk_sink-fits, run-failed}
use everwas.Scripts.Job.{JobSpec, Result}
use everwas.Scripts.Runner.{Host, Effect, Executed, prepare, report, run, outputs}
use everwas.Scripts.Runner.Trace.{gather, chunk_in, gather-append, chunk_in-outputs}
use everwas.Scripts.Runner.Execute.{IsExecuted, calls_of, execute_lem}

abbrev closing : List Call
closing = call_eof stream_stdout ∷ call_eof stream_stderr ∷ []

handed_over-closing : (cs : List Call) → handed_over (cs ++ closing) ≡ handed_over cs
handed_over-closing [] = refl
handed_over-closing (call_write stream p ∷ cs) = ap (λ t. p ++ t) (handed_over-closing cs)
handed_over-closing (call_eof stream ∷ cs) = handed_over-closing cs
handed_over-closing (call_stop ∷ cs) = refl

run-closing :
    (refuses : Chunk → Bool) (s : ChunkSink)
    → let out = eof refuses stream_stdout s in
      let err = eof refuses stream_stderr out.sink in
      Capture.run refuses closing s
      ≡ some (record {
        chunks = out.chunks ++ (err.chunks ++ []);
        failed = out.failed || (err.failed || false);
        sink = err.sink;
      })
unfolding Capture.run step
run-closing refuses s = refl

report-chunks :
    (refuses : Chunk → Bool) (h : Host) (job : JobSpec) (x : Executed)
    → gather chunk_in (report refuses h job x).0
      ≡ gather chunk_in x.effects
        ++ ((eof refuses stream_stdout x.sink).chunks
            ++ (eof refuses stream_stderr (eof refuses stream_stdout x.sink).sink).chunks)
unfolding report
report-chunks refuses h job x =
    let out = eof refuses stream_stdout x.sink in
    let err = eof refuses stream_stderr out.sink in
    gather-append chunk_in x.effects _
    ∙ ap (λ t. gather chunk_in x.effects ++ t)
        (gather-append chunk_in (map outputs (out.chunks ++ err.chunks)) _
          ∙ append-nil (gather chunk_in (map outputs (out.chunks ++ err.chunks)))
          ∙ chunk_in-outputs (out.chunks ++ err.chunks))

abbrev calls_to : Host → JobSpec → List Call
calls_to h job = calls_of h (prepare h job).outcome ++ closing

-- The chunks of a trace and the flag of its result are those of the calls on one sink.
report-calls :
    (refuses : Chunk → Bool) (h : Host) (job : JobSpec) (s : ChunkSink) (x : Executed)
    → IsExecuted refuses (prepare h job) h s x
    → (o : Emitted) × (Capture.run refuses (calls_to h job) s ≡ some o)
      × (gather chunk_in (report refuses h job x).0 ≡ o.chunks)
      × ((report refuses h job x).1.truncated ≡ o.sink.truncated)
report-calls refuses h job s x k =
    let (o, e, c, d) = k.emitted in
    let out = eof refuses stream_stdout o.sink in
    let err = eof refuses stream_stderr out.sink in
    (
      record {
        chunks = o.chunks ++ (out.chunks ++ (err.chunks ++ []));
        failed = o.failed || (out.failed || (err.failed || false));
        sink = err.sink;
      },
      run-append refuses (calls_of h (prepare h job).outcome) closing s o _ e
          (run-closing refuses o.sink),
      report-chunks refuses h job x ∙ rw (c, d, append-nil err.chunks) refl,
      unfold report is_truncated eof send in ap (λ (t : ChunkSink). t.truncated) d,
    )

abbrev Outputs : (Chunk → Bool) → Host → JobSpec → List Effect → Result → Type 0
Outputs refuses h job es res =
    let all = handed_over (calls_of h (prepare h job).outcome) in
    Numbered 0 (gather chunk_in es)
    × (any_of refuses (gather chunk_in es) ≡ false
        → (payload (gather chunk_in es) ≡ take max_job_output_bytes all)
          × (res.truncated ≡ ltb max_job_output_bytes (length all)))

calls_to-Outputs :
    (refuses : Chunk → Bool) (h : Host) (job : JobSpec) (o : Emitted)
    → Capture.run refuses (calls_to h job) (new_chunk_sink job.job_id job.entry_id) ≡ some o
    → let all = handed_over (calls_of h (prepare h job).outcome) in
      Numbered 0 o.chunks
      × (any_of refuses o.chunks ≡ false
          → (payload o.chunks ≡ take max_job_output_bytes all)
            × (o.sink.truncated ≡ ltb max_job_output_bytes (length all)))
unfolding new_chunk_sink
calls_to-Outputs refuses h job o w =
    let s = new_chunk_sink job.job_id job.entry_id in
    let (o', w', numbered, _, bytes, flag) =
      run_captures refuses (calls_to h job) s (omega arith) (omega arith) in
    let same : o' ≡ o = ground (arith, w, w') in
    let all = handed_over-closing (calls_of h (prepare h job).outcome) in
    (
      rw (← same) numbered,
      λ accepted.
          let f : o'.failed ≡ false =
            rw same (run-failed refuses (calls_to h job) s o w ∙ accepted) in
          (rw (← same, ← all) (bytes f), rw (← same, ← all) (flag f)),
    )

run-Outputs :
    (refuses : Chunk → Bool) (h : Host) (job : JobSpec) (es : List Effect) (res : Result)
    → run refuses h job ≡ some (es, res)
    → Outputs refuses h job es res
unfolding run
run-Outputs refuses h job es res e =
    let s = new_chunk_sink job.job_id job.entry_id in
    let fits = new_chunk_sink-fits job.job_id job.entry_id in
    let (x, q, k) = execute_lem refuses h job s fits.0 fits.1 in
    let (o, w, c, t) = report-calls refuses h job s x k in
    let trace : some (report refuses h job x) ≡ some (es, res) = rw (run, q) at e in
    let here : Outputs refuses h job (report refuses h job x).0 (report refuses h job x).1 =
      rw (c, t) (calls_to-Outputs refuses h job o w) in
    let both : report refuses h job x ≡ (es, res) = ground (arith, trace) in
    subst (λ (p : List Effect × Result). Outputs refuses h job p.0 p.1) both here

-- If the publisher takes every chunk of a run, those that close the streams included, they are numbered from
-- 1 without a gap, and their bytes in that order are the first 8 MiB of what the job handed over before its
-- sink was stopped, or of the message if it did not start; and the result says that it is truncated exactly
-- when that is not all of it.
pub run_outputs :
    (refuses : Chunk → Bool) (h : Host) (job : JobSpec) (es : List Effect) (res : Result)
    → run refuses h job ≡ some (es, res)
    → any_of refuses (gather chunk_in es) ≡ false
    → let all = handed_over (calls_of h (prepare h job).outcome) in
      Numbered 0 (gather chunk_in es)
      × (payload (gather chunk_in es) ≡ take max_job_output_bytes all)
      × (res.truncated ≡ ltb max_job_output_bytes (length all))
run_outputs refuses h job es res e accepted =
    let k = run-Outputs refuses h job es res e in
    let (bytes, flag) = k.1 accepted in (k.0, bytes, flag)
