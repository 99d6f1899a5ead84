-- ===== src/Agentcore/Supervise/Backoff.antt =====
-- The waits of agent/internal/agentcore's supervisor.
use everwas.Base.{◌⊎◌}
use everwas.Base.{
  ℕ, ◌*◌, ◌≤◌, ◌≡◌, refl, min, Bool, true, false, List, [], ◌∷◌, Each, arith, Bool-cases, inl, inr,
  ltb, if◌then◌else◌,
}
use everwas.Agentcore.Supervise.{
  Life, Restart, recovered, supervise, initial_backoff, max_backoff, backoff_after,
}

abbrev pub IsBackoff : ℕ → Type 0
IsBackoff b = (initial_backoff ≤ b) × (b ≤ max_backoff)

-- The restarts that a list of lives asks for: all of them, up to the one in which the context ends.
abbrev pub Restarts : List Life → List Restart → Bool → Type 0
Restarts [] rs stopped = (rs ≡ []) × (stopped ≡ false)
Restarts (l ∷ ls) [] stopped = (l.stopped ≡ true) × (stopped ≡ true)
Restarts (l ∷ ls) (r ∷ rs) stopped =
    (l.stopped ≡ false)
    × (r.error ≡ recovered l.end)
    × ((l.stopped_waiting ≡ true) × (rs ≡ []) × (stopped ≡ true)
        ⊎ ((l.stopped_waiting ≡ false) × Restarts ls rs stopped))

-- Each wait is the start again after a long life, or else twice the one before, up to the greatest.
abbrev pub Doubles : ℕ → List Life → List Restart → Type 0
Doubles b ls [] = Unit {0}
Doubles b [] (r ∷ rs) = ⊥
Doubles b (l ∷ ls) (r ∷ rs) =
    (r.backoff ≡ (if ltb max_backoff l.ran then initial_backoff else b))
    × Doubles (min (r.backoff * 2) max_backoff) ls rs

supervise-Backoff :
    (b : ℕ) (ls : List Life)
    → IsBackoff b
    → let (rs, stopped) = supervise b ls in
      Each (λ r. IsBackoff r.backoff) rs × Restarts ls rs stopped × Doubles b ls rs
unfolding supervise
supervise-Backoff b [] h = (tt, (refl, refl), tt)
supervise-Backoff b (l ∷ ls) h =
    let wait = backoff_after l.ran b in
    let w : IsBackoff wait = ground arith in
    let rest = supervise-Backoff (min (wait * 2) max_backoff) ls (omega arith, omega arith) in
    elim (Bool-cases l.stopped) [
      | inl s ↦ rw s (tt, (refl, refl), tt)
      | inr s ↦ elim (Bool-cases l.stopped_waiting) [
        | inl q ↦ rw (s, q) ((w, tt), (refl, refl, inl (refl, refl, refl)), (refl, tt))
        | inr q ↦ rw (s, q) ((w, rest.0), (refl, refl, inr (refl, rest.1)), (refl, rest.2))
      ]
    ]

-- However its lives go, a task that returns, fails or panics is started again until the context has ended,
-- and only then is it left: there is a restart for each life but the one in which the context ended, with
-- the error of that life, or nil. Each wait lies between one second and one minute; it is the least after a
-- life of more than a minute, and else twice the one before, up to the greatest.
pub supervise-Restarts :
    (ls : List Life)
    → let (rs, stopped) = supervise initial_backoff ls in
      Each (λ r. IsBackoff r.backoff) rs × Restarts ls rs stopped × Doubles initial_backoff ls rs
supervise-Restarts ls = supervise-Backoff initial_backoff ls (omega arith, omega arith)
