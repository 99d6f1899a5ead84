-- ===== src/Scripts/Runner/Terminal.antt =====
-- The end of a run, agent/internal/scripts/runner.go: one result for every job, after its output.
use everwas.Scripts.Chunk.Refused.{new_chunk_sink-fits}
use everwas.Base.{
  zero, suc, Bool-cases, ◌≡◌, ◌↔◌, refl, ◌∙◌, Bool, true, none, some, List, [], ◌∷◌, map, arith,
  ◌⊎◌, inl, inr,
}
use everwas.Base.Int.{negsuc, ℤ, pos}
use everwas.Base.Text.{Text}
use everwas.Scripts.Chunk.{send, Chunk, new_chunk_sink, eof}
use everwas.Scripts.Job.{
  minus_one, is_zero, failed, set_reason, JobSpec, Result, Status, succeeded, WaitError, result,
  set_reasons, exit_of,
}
use everwas.Scripts.Runner.{
  Ask, timer_fires, ctx_done, cancel_called, Host, Effect, Executed, prepare, report, run,
  reason_of,
}
use everwas.Scripts.Runner.Trace.{gather, result_in, unwind, gather-append, unwind-append}
use everwas.Scripts.Runner.Execute.{verdict_of, execute_lem}

set_reasons-some :
    (reasons : List Status) (first : Status) → set_reasons reasons (some first) ≡ (some first, 0)
unfolding set_reasons set_reason
set_reasons-some [] first = refl
set_reasons-some (r ∷ reasons) first = rw (set_reasons-some reasons first) refl

-- The first ask kills the job and is its reason; the others do nothing.
pub set_reasons-asks :
    (a : Ask) (asks : List Ask)
    → set_reasons (map reason_of (a ∷ asks)) none ≡ (some (reason_of a), 1)
unfolding set_reasons set_reason
set_reasons-asks a asks = rw (set_reasons, set_reasons-some (map reason_of asks) (reason_of a)) refl

reason_of-succeeded : (a : Ask) → reason_of a ≡ succeeded → ⊥
reason_of-succeeded timer_fires q = ground (arith, q)
reason_of-succeeded ctx_done q = ground (arith, q)
reason_of-succeeded cancel_called q = ground (arith, q)

is_zero_iff : (c : ℤ) → (is_zero c ≡ true) ↔ (c ≡ pos 0)
unfolding is_zero
is_zero_iff (pos zero) = (λ q. refl, λ q. refl)
is_zero_iff (pos (suc n)) = (λ q. ground (arith, q), λ q. ground (arith, q))
is_zero_iff (negsuc n) = (λ q. ground (arith, q), λ q. ground (arith, q))

-- A run succeeded exactly when nothing killed the process and it exited with 0, and exactly then the exit
-- code is 0.
abbrev pub IsEnd : List Ask → WaitError → Result → Type 0
IsEnd asks e r =
    ((r.status ≡ succeeded) ↔ ((asks ≡ []) × (exit_of e ≡ pos 0)))
    × ((r.status ≡ succeeded) ↔ (r.exit_code ≡ pos 0))

result-IsEnd :
    (asks : List Ask) (e : WaitError)
    → IsEnd asks e (result e (set_reasons (map reason_of asks) none).0)
unfolding set_reasons result
result-IsEnd [] e = elim (Bool-cases (is_zero (exit_of e))) [
  | inl z ↦
      let c : exit_of e ≡ pos 0 = (is_zero_iff (exit_of e)).0 z in
      rw z ((λ q. (refl, c), λ q. refl), (λ q. refl, λ q. refl))
  | inr z ↦ rw z (
    (λ q. absurd (ground (arith, q)), λ q. absurd (ground (arith, is_zero_iff (exit_of e), q))),
    (λ q. absurd (ground (arith, q)), λ q. absurd (ground (arith, is_zero_iff (exit_of e), q))),
  )
]
result-IsEnd (a ∷ asks) e = rw (set_reasons-asks a asks) (
  (λ q. absurd (reason_of-succeeded a q), λ q. absurd (ground (arith, q))),
  (λ q. absurd (reason_of-succeeded a q), λ q. absurd (killed q)),
)
  where
    killed : (result e (some (reason_of a))).exit_code ≡ pos 0 → ⊥
    killed q = elim (Bool-cases (is_zero (exit_of e))) [
      | inl z ↦ let q' : minus_one ≡ pos 0 = rw (result, z) at q in ground (arith, q')
      | inr z ↦
          let q' : exit_of e ≡ pos 0 = rw (result, z) at q in
          ground (arith, is_zero_iff (exit_of e), q')
    ]

abbrev pub EndsAs : Host → Text ⊎ Text → Result → Type 0
EndsAs h (inl e) r = (r.status ≡ failed) × (r.exit_code ≡ minus_one)
EndsAs h (inr path) r = IsEnd h.asks h.wait_error r

verdict_of-EndsAs : (h : Host) (o : Text ⊎ Text) → EndsAs h o (verdict_of h o)
verdict_of-EndsAs h (inl e) = (refl, refl)
verdict_of-EndsAs h (inr path) = result-IsEnd h.asks h.wait_error

report-EndsAs :
    (refuses : Chunk → Bool) (h : Host) (job : JobSpec) (x : Executed) (o : Text ⊎ Text)
    → EndsAs h o x.result
    → EndsAs h o (report refuses h job x).1
unfolding report
report-EndsAs refuses h job x (inl e) k = k
report-EndsAs refuses h job x (inr path) k = k

-- What `report` adds to a run.
report_lem :
    (refuses : Chunk → Bool) (h : Host) (job : JobSpec) (x : Executed)
    → gather result_in x.effects ≡ []
    → unwind x.effects [] ≡ some []
    → let (es, res) = report refuses h job x in
      (gather result_in es ≡ (job.job_id, res) ∷ []) × (unwind es [] ≡ some [])
unfolding report eof send
report_lem refuses h job x silent unwound = (
  gather-append result_in x.effects _ ∙ rw silent refl,
  unwind-append x.effects _ [] [] unwound ∙ unfold unwind in refl,
)

pub run_reports :
    (refuses : Chunk → Bool) (h : Host) (job : JobSpec)
    → (es : List Effect) × (res : Result) × (run refuses h job ≡ some (es, res))
      × (gather result_in es ≡ (job.job_id, res) ∷ [])
      × (res.entry_id ≡ job.entry_id)
      × (unwind es [] ≡ some [])
      × EndsAs h (prepare h job).outcome res
unfolding run
run_reports refuses h job =
    let s = new_chunk_sink job.job_id job.entry_id in
    let fits = new_chunk_sink-fits job.job_id job.entry_id in
    let (x, e, k) = execute_lem refuses h job s fits.0 fits.1 in
    let (r, u) = report_lem refuses h job x k.silent k.unwound in
    (
      (report refuses h job x).0,
      (report refuses h job x).1,
      rw (run, e) refl,
      r,
      unfold report in refl,
      u,
      report-EndsAs refuses h job x (prepare h job).outcome
          (rw k.verdict (verdict_of-EndsAs h (prepare h job).outcome)),
    )
