-- ===== src/Sched/Queue/Tests.antt =====
-- Runs of agent/internal/sched at concrete inputs.
use everwas.Base.{
  ◌<◌, ◌≤◌, ℕ, suc, ◌+◌, ◌-◌, ◌*◌, ◌/◌, true, ◌≡◌, refl, Option, none, some, List, [], ◌∷◌, arith,
  length,
}
use everwas.Base.Int.{pos, second, unix, epoch}
use everwas.Base.Text.{text_eq, Text, codes}
use everwas.Sched.Misfire.{fnv_64, decide_misfire, jitter, scan, last_missed}
use everwas.Sched.Misfire.Scan.{IsNext, Found, last_missed-Found}
use everwas.Sched.Queue.{
  next_items, carried, mark_fired, find_entry, too_late, item_for, push, pop, peek, handle_due,
  catch_up_entry, get_fired, catch_up_each, Entry, Document, Scheduler, Event, ran, fire_due,
  catch_up, rebuild,
}

abbrev minute : ℕ
minute = 60 * second

-- A schedule that fires on every minute.
abbrev minutely : ℕ → ℕ
minutely t = (t / minute + 1) * minute

abbrev schedule : Entry → Option (ℕ → ℕ)
schedule e = some minutely

-- An instant of this century.
abbrev noon : ℕ
noon = (epoch + 1800000000) * second

abbrev nightly : Entry
nightly = record {
  entry_id = codes "nightly";
  cron = codes "* * * * *";
  tz = [];
  kind = codes "script";
  payload = [];
  jitter_s = pos 0;
  misfire_grace_s = pos 600;
  enabled = true;
}

abbrev scheduler : Scheduler
scheduler = record {
  agent_id = codes "a";
  schedule_version = pos 1;
  entries = nightly ∷ [];
  last_fired = (codes "nightly", unix (noon - minute)) ∷ [];
  pq = record { entry_id = codes "nightly"; base = noon; at = noon } ∷ [];
}

OnTheMinute : ℕ → Type 0
OnTheMinute u = (k : ℕ) × (u ≡ (k + 1) * minute)

minutely-IsNext : IsNext OnTheMinute minutely
unfolding OnTheMinute
minutely-IsNext = record {
  later = λ t n. (omega arith, (t / minute, refl));
  first = λ t u lt f. (λ z. omega arith, omega (arith, f.1));
}

last_missed-Found_example :
    ((last_missed minutely noon (noon + 3 * minute) 10).1 ≤ 10)
    × ((last_missed minutely noon (noon + 3 * minute) 10).1 < 10
        → Found OnTheMinute noon
            (noon + 3 * minute)
            (last_missed minutely noon (noon + 3 * minute) 10).0)
last_missed-Found_example =
    last_missed-Found OnTheMinute minutely noon (noon + 3 * minute) 10 minutely-IsNext

last_missed_3 : last_missed minutely noon (noon + 3 * minute) 10 ≡ (noon + 3 * minute, 3)
unfolding last_missed scan
last_missed_3 = refl

abbrev document : Document
document = record { schedule_version = pos 2; entries = nightly ∷ [] }

-- An agent that starts a second after noon, two fires behind.
abbrev restarted : Scheduler
restarted = record scheduler {
  last_fired = (codes "nightly", unix (noon - 2 * minute)) ∷ [];
  pq = [];
}

fired_at : ℕ → Scheduler → List Event × Scheduler
unfolding fire_due
fired_at now s = elim (fire_due schedule (suc (length s.pq)) now s) [ none ↦ ([], s) | some r ↦ r ]

-- After the run that was caught up, the queue holds the next fire twice, and the job is run twice for it.
double_fire :
    let s1 = rebuild schedule (noon + second) (catch_up schedule (noon + second) restarted).1 in
    let s2 = (fired_at (noon + 61 * second) s1).1 in
    (fired_at (noon + 121 * second) s2).0
    ≡ ran nightly (noon + 2 * minute) ∷ ran nightly (noon + 2 * minute) ∷ []
unfolding rebuild catch_up catch_up_each catch_up_entry fired_at fire_due handle_due peek pop push
    item_for too_late decide_misfire find_entry mark_fired get_fired last_missed scan jitter fnv_64
    carried next_items text_eq
double_fire = refl
