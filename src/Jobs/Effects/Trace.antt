-- ===== src/Jobs/Effects/Trace.antt =====
-- How a trace of a job of agent/internal/jobs is read: its results, and whether the process ends only after
-- one was sent.
use everwas.Base.{
  ◌≡◌, refl, sym, ap, ◌∙◌, Bool, true, false, not, ◌&&◌, ◌||◌, some, List, [], ◌∷◌, ◌++◌, map,
  all_of, arith, append_assoc,
}
use everwas.Base.Text.{Text}
use everwas.Scripts.Chunk.{stream_stderr, stream_stdout, Chunk, new_chunk_sink}
use everwas.Scripts.Chunk.Refused.{new_chunk_sink-fits}
use everwas.Scripts.Chunk.Capture.{call_write, call_eof, run_captures}
use everwas.Scripts.Job.{JobSpec, Result}
use everwas.Scripts.Publish.{publish_stderr}
use everwas.Scripts.Runner.Trace.{result_in}
use everwas.Jobs.Effects.{
  JobEffect, does, emits, refreshes_inventory, refreshes_patch_state, installs, applies, restarts,
  hands_off, stderr_then, output_effect,
}

abbrev pub job_result_in : JobEffect → List (Text × Result)
job_result_in (does e) = result_in e
job_result_in (emits ev spec) = []
job_result_in refreshes_inventory = []
job_result_in refreshes_patch_state = []
job_result_in (installs ids) = []
job_result_in applies = []
job_result_in (restarts why) = []
job_result_in (hands_off why) = []

abbrev pub job_results : List JobEffect → List (Text × Result)
job_results [] = []
job_results (e ∷ es) = job_result_in e ++ job_results es

abbrev pub is_exit : JobEffect → Bool
is_exit (does e) = false
is_exit (emits ev spec) = false
is_exit refreshes_inventory = false
is_exit refreshes_patch_state = false
is_exit (installs ids) = false
is_exit applies = false
is_exit (restarts why) = true
is_exit (hands_off why) = true

abbrev pub is_nil : List (Text × Result) → Bool
is_nil [] = true
is_nil (r ∷ rs) = false

-- The process is asked to end only after a result was sent.
abbrev pub orderly : Bool → List JobEffect → Bool
orderly sent [] = true
orderly sent (e ∷ es) =
    (sent || not (is_exit e)) && orderly (sent || not (is_nil (job_result_in e))) es

-- Neither a result nor an exit.
abbrev pub quiet : JobEffect → Bool
quiet e = is_nil (job_result_in e) && not (is_exit e)

pub job_results-append :
    (es fs : List JobEffect) → job_results (es ++ fs) ≡ job_results es ++ job_results fs
job_results-append [] fs = refl
job_results-append (e ∷ es) fs =
    ap (λ t. job_result_in e ++ t) (job_results-append es fs)
    ∙ sym (append_assoc (job_result_in e) (job_results es) (job_results fs))

is_nil-true : (rs : List (Text × Result)) → is_nil rs ≡ true → rs ≡ []
is_nil-true [] h = refl
is_nil-true (r ∷ rs) h = ground (arith, h)

pub job_results-quiet :
    (es fs : List JobEffect) → all_of quiet es ≡ true → job_results (es ++ fs) ≡ job_results fs
job_results-quiet [] fs h = refl
job_results-quiet (e ∷ es) fs h =
    rw (is_nil-true (job_result_in e) (ground (arith, h)))
      (job_results-quiet es fs (ground (arith, h)))

pub orderly-quiet :
    (sent : Bool) (es fs : List JobEffect)
    → all_of quiet es ≡ true
    → orderly sent (es ++ fs) ≡ orderly sent fs
orderly-quiet sent [] fs h = refl
orderly-quiet sent (e ∷ es) fs h = ground (arith, h, orderly-quiet sent es fs)

pub all_of-append :
    (p : JobEffect → Bool) (es fs : List JobEffect)
    → all_of p es ≡ true
    → all_of p fs ≡ true
    → all_of p (es ++ fs) ≡ true
all_of-append p [] fs h k = k
all_of-append p (e ∷ es) fs h k = ground (arith, h, all_of-append p es fs)

pub quiet-outputs : (cs : List Chunk) → all_of quiet (map output_effect cs) ≡ true
quiet-outputs [] = refl
quiet-outputs (c ∷ cs) = quiet-outputs cs

-- The output of a job without a process is always published.
pub stderr_then_lem :
    (refuses : Chunk → Bool) (spec : JobSpec) (text : Text) (rest : List JobEffect)
    → (cs : List Chunk) × (stderr_then refuses spec text rest ≡ some (map output_effect cs ++ rest))
unfolding stderr_then publish_stderr
stderr_then_lem refuses spec text rest =
    let fits = new_chunk_sink-fits spec.job_id spec.entry_id in
    let (o, e, _, _, _, _) =
      run_captures refuses
        (call_write stream_stderr text ∷ call_eof stream_stdout ∷ call_eof stream_stderr ∷ [])
        (new_chunk_sink spec.job_id spec.entry_id) fits.0 fits.1 in
    (o.chunks, rw (stderr_then, publish_stderr, e) refl)
