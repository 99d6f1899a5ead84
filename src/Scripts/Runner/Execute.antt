-- ===== src/Scripts/Runner/Execute.antt =====
-- `execute` of agent/internal/scripts/runner.go on each of its paths.
use everwas.Scripts.Runner.Trace.{
  gather, chunk_in, result_in, unwind, gather-append, chunk_in-outputs, result_in-outputs,
  gather-kills, gather-around, unwind-outputs, unwind-kills, entry, process, pipes, staged_script,
}
use everwas.Base.{
  ◌||◌, ◌≤◌, ◌<◌, Sum-cases, ◌≡◌, refl, sym, ◌∙◌, Bool, false, none, some, List, [], ◌∷◌, ◌++◌, map,
  append-nil, ◌⊎◌, inl, inr, Option-cases, Bool-cases,
}
use everwas.Base.Text.{Text, text_eq}
use everwas.Scripts.Chunk.{Chunk, ChunkSink, Emitted, stream_stderr}
use everwas.Scripts.Chunk.Capture.{Call, call_write}
use everwas.Scripts.Chunk.Capture
use everwas.Scripts.Chunk.Frames.{write_total}
use everwas.Scripts.Interp.{resolve_with}
use everwas.Scripts.Job.{JobSpec, Result, bare, failed, minus_one, result, set_reasons}
use everwas.Scripts.Runner.{
  phase_running, note, phase_started, execute_prepared, Host, Effect, Prepared, Executed, prepare,
  execute, abort, abort_text, outputs, sink_calls, reason_of, kill_times, progress, stages,
  opens_pipes, registers, starts, unregisters, releases_guard, closes_pipes, removes_stage,
}

-- The five ways in which the start of a job ends.
prepare-cases :
    (P : Prepared → Type 0) (h : Host) (job : JobSpec)
    → ((e : Text) → P (record { before = []; deferred = []; outcome = inl e }))
    → ((e : Text)
        → P (record { before = stages ∷ []; deferred = removes_stage ∷ []; outcome = inl e }))
    → ((e : Text)
        → P (record {
          before = stages ∷ opens_pipes ∷ [];
          deferred = closes_pipes ∷ removes_stage ∷ [];
          outcome = inl e;
        }))
    → ((args env : List Text) (path : Text)
        → P (record {
          before = stages ∷ opens_pipes ∷ starts args env ∷ [];
          deferred = unregisters ∷ releases_guard ∷ closes_pipes ∷ removes_stage ∷ [];
          outcome = inr path;
        }))
    → P (prepare h job)
unfolding prepare
prepare-cases P h job at_once staged piped runs = elim (Bool-cases (text_eq job.body [])) [
  | inl empty ↦ rw empty (at_once _)
  | inr body ↦ elim (Sum-cases (resolve_with h.os job.shell h.look)) [
    | inl (e, r) ↦ rw (body, r) (at_once e)
    | inr (interp, r) ↦ elim (Option-cases h.stage_error) [
      | inr (e, q) ↦ rw (body, r, q) (at_once _)
      | inl q ↦ elim (Option-cases h.pipe_error) [
        | inr (e, o) ↦ rw (body, r, q, o) (staged e)
        | inl o ↦ elim (Option-cases h.start_error) [
          | inr (e, t) ↦ rw (body, r, q, o, t) (piped _)
          | inl t ↦ rw (body, r, q, o, t) (runs _ _ _)
        ]
      ]
    ]
  ]
]

-- What a run has to do before it reports, by how it was prepared: the bytes that it hands to the sink, in
-- calls, and its result.
abbrev pub calls_of : Host → Text ⊎ Text → List Call
calls_of h (inl e) = call_write stream_stderr (abort_text e) ∷ []
calls_of h (inr path) = sink_calls h

abbrev pub verdict_of : Host → Text ⊎ Text → Result
verdict_of h (inl e) = bare failed minus_one
verdict_of h (inr path) = result h.wait_error (set_reasons (map reason_of h.asks) none).0

pub record IsExecuted (refuses : Chunk → Bool) (p : Prepared) (h : Host) (s : ChunkSink)
    (x : Executed) : Type 0 where
  pub emitted :
      (o : Emitted) × (Capture.run refuses (calls_of h p.outcome) s ≡ some o)
      × (gather chunk_in x.effects ≡ o.chunks)
      × (x.sink ≡ o.sink)
  pub verdict : x.result ≡ verdict_of h p.outcome
  pub silent : gather result_in x.effects ≡ []
  pub unwound : unwind x.effects [] ≡ some []

module _ (refuses : Chunk → Bool) (h : Host) (job : JobSpec) (s : ChunkSink) where
  abbrev Executes : Prepared → Type 0
  Executes p =
      (x : Executed) × (execute_prepared refuses p h job s ≡ some x) × IsExecuted refuses p h s x

  aborts :
      (before deferred : List Effect) (e : Text)
      → 0 < s.max_chunk
      → s.written ≤ s.cap_bytes
      → gather chunk_in before ≡ []
      → gather chunk_in deferred ≡ []
      → gather result_in before ≡ []
      → gather result_in deferred ≡ []
      → ((cs : List Chunk) → unwind (before ++ (map outputs cs ++ deferred)) [] ≡ some [])
      → Executes (record { before = before; deferred = deferred; outcome = inl e })
  unfolding execute_prepared abort unwind
  aborts before deferred e pos fits bc dc br dr unwinds =
      let (o, w, _) = write_total refuses stream_stderr (abort_text e) s pos fits in
      (
        record {
          effects =
              progress 0 phase_started (note job.shell)
              ∷ (before ++ (map outputs o.chunks ++ deferred));
          result = bare failed minus_one;
          sink = o.sink;
        },
        rw (execute_prepared, abort, w) refl,
        record {
          emitted = (
            record { chunks = o.chunks ++ []; failed = o.failed || false; sink = o.sink },
            Capture.run-write refuses stream_stderr (abort_text e) s o w,
            gather-around chunk_in before deferred o.chunks bc dc
                ∙ chunk_in-outputs o.chunks
                ∙ sym (append-nil o.chunks),
            refl,
          );
          verdict = refl;
          silent =
              gather-around result_in before deferred o.chunks br dr ∙ result_in-outputs o.chunks;
          unwound = unwinds o.chunks;
        },
      )

  runs :
      (args env : List Text) (path : Text)
      → 0 < s.max_chunk
      → s.written ≤ s.cap_bytes
      → Executes (record {
        before = stages ∷ opens_pipes ∷ starts args env ∷ [];
        deferred = unregisters ∷ releases_guard ∷ closes_pipes ∷ removes_stage ∷ [];
        outcome = inr path;
      })
  unfolding execute_prepared unwind
  runs args env path pos fits =
      let (o, w, _, _, _, _) = Capture.run_captures refuses (sink_calls h) s pos fits in
      let reasons = set_reasons (map reason_of h.asks) none in
      let after : List Effect =
        kill_times reasons.1 ++ unregisters ∷ releases_guard ∷ closes_pipes ∷ removes_stage ∷ [] in
      let no_chunk : gather chunk_in after ≡ [] =
        gather-append chunk_in (kill_times reasons.1) _
        ∙ rw (gather-kills chunk_in reasons.1 refl) refl in
      let no_result : gather result_in after ≡ [] =
        gather-append result_in (kill_times reasons.1) _
        ∙ rw (gather-kills result_in reasons.1 refl) refl in
      (
        record {
          effects =
              progress 0 phase_started (note job.shell)
              ∷ stages
              ∷ opens_pipes
              ∷ starts args env
              ∷ progress 10 phase_running (note path)
              ∷ registers
              ∷ (map outputs o.chunks ++ after);
          result = result h.wait_error reasons.0;
          sink = o.sink;
        },
        rw (execute_prepared, w) refl,
        record {
          emitted = (
            o,
            w,
            gather-around chunk_in [] after o.chunks refl no_chunk ∙ chunk_in-outputs o.chunks,
            refl,
          );
          verdict = refl;
          silent =
              gather-around result_in [] after o.chunks refl no_result ∙ result_in-outputs o.chunks;
          unwound =
              rw (unwind-outputs o.chunks after (entry ∷ process ∷ pipes ∷ staged_script ∷ [])) (
                unwind-kills reasons.1
                  (unregisters ∷ releases_guard ∷ closes_pipes ∷ removes_stage ∷ [])
                  (process ∷ pipes ∷ staged_script ∷ []));
        },
      )

  pub execute_lem :
      0 < s.max_chunk
      → s.written ≤ s.cap_bytes
      → (x : Executed) × (execute refuses h job s ≡ some x)
        × IsExecuted refuses (prepare h job) h s x
  unfolding unwind execute
  execute_lem pos fits =
      prepare-cases Executes h job
        (λ e. aborts [] [] e pos fits refl refl refl refl (λ cs. unwind-outputs cs [] []))
        (λ e.
          aborts (stages ∷ []) (removes_stage ∷ []) e pos fits refl refl refl refl
            (λ cs. unwind-outputs cs _ _))
        (λ e.
          aborts (stages ∷ opens_pipes ∷ []) (closes_pipes ∷ removes_stage ∷ []) e pos fits refl
            refl refl refl (λ cs. unwind-outputs cs _ _))
        (λ args env path. runs args env path pos fits)
