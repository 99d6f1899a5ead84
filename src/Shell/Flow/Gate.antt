-- ===== src/Shell/Flow/Gate.antt =====
-- The gate channel of agent/internal/shell/flow.go: it never panics and never loses a waiter.
use everwas.Base.{
  ℕ, suc, ◌<◌, ◌≡◌, refl, sym, ◌∙◌, Bool, true, false, Option, none, some, List, [], ◌∷◌, contains,
  arith, ◌⊎◌, inl, inr,
}
use everwas.Base.Int.{ℤ}
use everwas.Shell.Flow.{
  FlowController, Call, call_sent, call_ack, call_release, proceed, wait, new_flow_controller_with,
  sent, ack, release, step, run,
}

-- The gate is there exactly while reads are paused, and it is open.
abbrev GateFits : Option ℕ → Bool → ℕ → List ℕ → Type 0
GateFits none paused made closed = paused ≡ false
GateFits (some g) paused made closed = (paused ≡ true) × (contains g closed ≡ false) × (g < made)

abbrev AllBelow : ℕ → List ℕ → Type 0
AllBelow made [] = Unit {0}
AllBelow made (g ∷ gs) = (g < made) × AllBelow made gs

pub record IsGated (f : FlowController) : Type 0 where
  pub gate_fits : GateFits f.gate f.paused f.made f.closed
  pub closed_made : AllBelow f.made f.closed

AllBelow-suc : (m : ℕ) (gs : List ℕ) → AllBelow m gs → AllBelow (suc m) gs
AllBelow-suc m [] h = tt
AllBelow-suc m (g ∷ gs) h = (omega arith, AllBelow-suc m gs h.1)

fresh : (m : ℕ) (gs : List ℕ) → AllBelow m gs → contains m gs ≡ false
unfolding contains
fresh m [] h = refl
fresh m (g ∷ gs) h = ground (arith, fresh m gs h.1)

pub new-IsGated : (a b : ℤ) → IsGated (new_flow_controller_with a b)
unfolding new_flow_controller_with
new-IsGated a b = record { gate_fits = refl; closed_made = tt }

-- What a call leaves: the state is there, gated, and a gate that was closed stays closed while the
-- gate that was current is current still or closed.
abbrev Follows : FlowController → Option FlowController → Type 0
Follows f none = ⊥
Follows f (some f') =
    IsGated f'
    × ((g : ℕ) → contains g f.closed ≡ true → contains g f'.closed ≡ true)
    × ((g : ℕ) → f.gate ≡ some g → (f'.gate ≡ some g) ⊎ (contains g f'.closed ≡ true))

-- `sent` either leaves the gate alone or makes a fresh one.
Follows-sent : (n : ℕ) (f : FlowController) → IsGated f → Follows f (some (sent n f).0)
unfolding sent
Follows-sent n f h = (
  record {
    gate_fits = ground (arith, h.gate_fits, fresh f.made f.closed h.closed_made);
    closed_made = ground (arith, AllBelow-suc f.made f.closed h.closed_made);
  },
  (λ g c. ground arith),
  (λ g c. ground (arith, h.gate_fits)),
)

Follows-release : (f : FlowController) → IsGated f → Follows f (release f)
unfolding release contains
Follows-release f h = ground (arith, h.gate_fits, h.closed_made)

Follows-ack : (n : ℤ) (f : FlowController) → IsGated f → Follows f (step (call_ack n) f)
unfolding step ack contains
Follows-ack n f h = ground (arith, h.gate_fits, h.closed_made)

Follows-step : (c : Call) (f : FlowController) → IsGated f → Follows f (step c f)
unfolding step
Follows-step (call_sent n) f h = Follows-sent n f h
Follows-step (call_ack n) f h = Follows-ack n f h
Follows-step call_release f h = Follows-release f h

run-cons_total :
    (c : Call) (cs : List Call) (f : FlowController)
    → IsGated f
    → (f' : FlowController) × (run (c ∷ cs) f ≡ run cs f') × Follows f (some f')
unfolding run
run-cons_total c cs f h = go (step c f) refl (Follows-step c f h)
  where
    go :
        (o : Option FlowController)
        → step c f ≡ o
        → Follows f o
        → (f' : FlowController) × (run (c ∷ cs) f ≡ run cs f') × Follows f (some f')
    go none e s = absurd s
    go (some f') e s = (f', rw (e, run) refl, s)

-- From a gated controller no sequence of calls closes a nil or a closed channel: every one of them
-- runs to its end, and leaves the gate there exactly while reads are paused, and open.
pub run_total :
    (cs : List Call) (f : FlowController)
    → IsGated f
    → (f' : FlowController) × (run cs f ≡ some f') × IsGated f'
run_total [] f h = (f, unfold run in refl, h)
run_total (c ∷ cs) f h =
    let (f', e, s) = run-cons_total c cs f h in
    let (f'', e', h') = run_total cs f' (s.0) in (f'', e ∙ e', h')

-- A gate that a reader took is, after any further calls, either closed or still the current one.
held_gate :
    (cs : List Call) (f : FlowController) (g : ℕ) (f' : FlowController)
    → IsGated f
    → (f.gate ≡ some g) ⊎ (contains g f.closed ≡ true)
    → run cs f ≡ some f'
    → IsGated f' × ((f'.gate ≡ some g) ⊎ (contains g f'.closed ≡ true))
held_gate [] f g f' h o e = unfold run in ground arith
held_gate (c ∷ cs) f g f' h o e =
    let (f1, e1, s) = run-cons_total c cs f h in
    held_gate cs f1 g f' (s.0)
      (elim o [ inl current ↦ s.2 g current | inr shut ↦ inr (s.1 g shut) ]) (sym e1 ∙ e)

-- A reader that took the gate of a gated controller is never forgotten: after any further calls it
-- either may proceed, or reads are still paused and its gate is the one that the next resume closes.
pub wait_wakes :
    (cs : List Call) (f : FlowController) (g : ℕ) (f' : FlowController)
    → IsGated f
    → f.gate ≡ some g
    → run cs f ≡ some f'
    → (wait (some g) false f' ≡ proceed ∷ [])
      ⊎ ((f'.paused ≡ true) × (f'.gate ≡ some g) × (wait (some g) false f' ≡ []))
unfolding wait
wait_wakes cs f g f' h current e =
    let (h', o) = held_gate cs f g f' h (inl current) e in ground (arith, h'.gate_fits)
