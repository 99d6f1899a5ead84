-- ===== src/Sched/Queue/Due.antt =====
-- The loop over the due items of agent/internal/sched/sched.go ends and leaves none.
use everwas.Base.{is_some, ℕ, ◌*◌, ◌<◌, Bool, ◌&&◌, ◌≡◌, ◌⊎◌, Option, some, List, length}
use everwas.Base.Int.{two_63, second, pos_part}
use everwas.Base.Text.{Text}
use everwas.Sched.Queue.Count.{count, is_due}
use everwas.Sched.Queue.{Entry, FireItem, Scheduler, Event, find_entry}

-- A spread that fits in a Duration.
abbrev pub IsSpread : Entry → Type 0
IsSpread e = pos_part e.jitter_s * second < two_63

abbrev pub in_force : List Entry → FireItem → Bool
in_force es it = is_some (find_entry es it.entry_id)

-- The documented behaviour of `Next`: the zero instant, or one after its argument.
module _ (schedule : Entry → Option (ℕ → ℕ))
    (later : (e : Entry) (next : ℕ → ℕ)
      → schedule e ≡ some next
      → (t : ℕ) → (next t ≡ 0) ⊎ (t < next t)) where
  -- A fire that the loop has to answer.
  abbrev pub owed : ℕ → List Entry → FireItem → Bool
  owed now es it = is_due now it && in_force es it

  -- What the loop answers and leaves.
  pub record Answered (now : ℕ) (s : Scheduler) (result : Option (List Event × Scheduler))
      : Type 0 where
    pub events : List Event
    pub after : Scheduler
    pub ends : result ≡ some (events, after)
    pub none_due : count (is_due now) after.pq ≡ 0
    pub one_each : length events ≡ count (owed now s.entries) s.pq
    pub same_entries : after.entries ≡ s.entries
