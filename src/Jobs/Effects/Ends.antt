-- ===== src/Jobs/Effects/Ends.antt =====
-- How a handler of agent/internal/jobs ends: with one result, and no exit before it.
use everwas.Base.{◌≡◌, refl, ◌∙◌, Bool, true, Option, some, List, [], ◌∷◌, ◌++◌, map, all_of, arith}
use everwas.Base.Text.{Text}
use everwas.Scripts.Chunk.{Chunk}
use everwas.Scripts.Job.{JobSpec, Result}
use everwas.Scripts.Publish.{publish_result}
use everwas.Jobs.Effects.{JobEffect, sends, stderr_then, output_effect, after}
use everwas.Jobs.Effects.Trace.{
  job_results, orderly, quiet, job_results-quiet, orderly-quiet, quiet-outputs, stderr_then_lem,
}

-- One result, for the job and its entry, and no exit before it.
pub record IsTerminal (spec : JobSpec) (es : List JobEffect) : Type 0 where
  pub res : Result
  pub only : job_results es ≡ (spec.job_id, res) ∷ []
  pub entry : res.entry_id ≡ spec.entry_id
  pub ordered : (sent : Bool) → orderly sent es ≡ true

pub sends-IsTerminal :
    (spec : JobSpec) (res : Result) (rest : List JobEffect)
    → job_results rest ≡ []
    → orderly true rest ≡ true
    → IsTerminal spec (sends spec res ∷ rest)
unfolding sends publish_result
sends-IsTerminal spec res rest none_after o = record {
  res = record res { entry_id = spec.entry_id };
  only = rw none_after refl;
  entry = refl;
  ordered = λ sent. ground (arith, o);
}

-- What a handler does before it ends, none of which is final.
pub quiet-IsTerminal :
    (spec : JobSpec) (before es : List JobEffect)
    → all_of quiet before ≡ true
    → IsTerminal spec es
    → IsTerminal spec (before ++ es)
quiet-IsTerminal spec before es q h = record {
  res = h.res;
  only = job_results-quiet before es q ∙ h.only;
  entry = h.entry;
  ordered = λ sent. orderly-quiet sent before es q ∙ h.ordered sent;
}

abbrev pub Ends : JobSpec → Option (List JobEffect) → Type 0
Ends spec o = (es : List JobEffect) × (o ≡ some es) × IsTerminal spec es

pub stderr_then-Ends :
    (refuses : Chunk → Bool) (spec : JobSpec) (before : List JobEffect) (text : Text)
    (middle : List JobEffect) (res : Result) (rest : List JobEffect)
    → all_of quiet before ≡ true
    → all_of quiet middle ≡ true
    → job_results rest ≡ []
    → orderly true rest ≡ true
    → Ends spec (after before (stderr_then refuses spec text (middle ++ (sends spec res ∷ rest))))
stderr_then-Ends refuses spec before text middle res rest q m r o =
    let (cs, e) = stderr_then_lem refuses spec text (middle ++ (sends spec res ∷ rest)) in
    (
      before ++ (map output_effect cs ++ (middle ++ (sends spec res ∷ rest))),
      rw e refl,
      quiet-IsTerminal spec before _ q (
          quiet-IsTerminal spec (map output_effect cs) _ (quiet-outputs cs)
            (quiet-IsTerminal spec middle _ m (sends-IsTerminal spec res rest r o))),
    )
