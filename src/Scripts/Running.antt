-- ===== src/Scripts/Running.antt =====
-- agent/internal/scripts/runner.go: the jobs that run, and who may kill them. A handle is shared by the map,
-- the job's timer and context, and a `Cancel` that has looked it up, so the handles are a store.
pub mod Cancelled
mod Tests
use everwas.Base.{
  ℕ, zero, suc, ◌+◌, Bool, true, false, Option, none, some, List, [], ◌∷◌, ◌++◌, map, if◌then◌else◌,
  length,
}
use everwas.Base.Text.{Text, text_eq}
use everwas.Scripts.Job.{Status, cancelled, set_reason}

-- The closure `kill`: its box, and how often it killed the process group.
pub record Handle : Type 0 where
  pub box : Option Status
  pub kills : ℕ

pub record Runner : Type 0 where
  pub handles : List Handle
  pub running : List (Text × ℕ)

abbrev pub new_runner : Runner
new_runner = record { handles = []; running = [] }

unfoldable pub stop : Status → Handle → Handle
unfolding set_reason
stop reason h = record {
  box = (set_reason reason h.box).0;
  kills = (if (set_reason reason h.box).1 then 1 else 0) + h.kills;
}

unfoldable pub stop_at : ℕ → Status → List Handle → List Handle
unfolding stop
stop_at i reason [] = []
stop_at zero reason (h ∷ hs) = stop reason h ∷ hs
stop_at (suc i) reason (h ∷ hs) = h ∷ stop_at i reason hs

-- `r.running[jobID]`, `r.running[jobID] = handle` and `delete(r.running, jobID)`.
unfoldable pub find_running : Text → List (Text × ℕ) → Option ℕ
find_running id [] = none
find_running id (p ∷ ps) =
    let rest = find_running id ps in if text_eq p.0 id then some p.1 else rest

unfoldable pub set_running : Text → ℕ → List (Text × ℕ) → List (Text × ℕ)
set_running id i [] = (id, i) ∷ []
set_running id i (p ∷ ps) =
    let rest = set_running id i ps in if text_eq p.0 id then (id, i) ∷ ps else p ∷ rest

unfoldable pub delete_running : Text → List (Text × ℕ) → List (Text × ℕ)
delete_running id [] = []
delete_running id (p ∷ ps) =
    let rest = delete_running id ps in if text_eq p.0 id then ps else p ∷ rest

unfoldable pub register : Text → Runner → Runner
unfolding set_running
register id r = record {
  handles = r.handles ++ record { box = none; kills = 0 } ∷ [];
  running = set_running id (length r.handles) r.running;
}

unfoldable pub unregister : Text → Runner → Runner
unfolding delete_running
unregister id r = record r { running = delete_running id r.running }

unfoldable pub cancel_found : Option ℕ → Runner → Bool × Runner
unfolding stop_at
cancel_found none r = (false, r)
cancel_found (some i) r = (true, record r { handles = stop_at i cancelled r.handles })

unfoldable pub cancel : Text → Runner → Bool × Runner
unfolding find_running cancel_found
cancel id r = cancel_found (find_running id r.running) r

unfoldable pub running_ids : Runner → List Text
running_ids r = map (λ p. p.0) r.running

-- What jobs and callers do, in the order of the mutexes. `kills_by` is a call of a handle by whoever holds
-- it, which may come after the job was unregistered.
pub data Call : Type 0 where
  registers unregisters cancels : Text → Call
  kills_by : ℕ → Status → Call

unfoldable pub call : Call → Runner → Runner
unfolding register unregister cancel stop_at
call (registers id) r = register id r
call (unregisters id) r = unregister id r
call (cancels id) r = (cancel id r).1
call (kills_by i reason) r = record r { handles = stop_at i reason r.handles }

unfoldable pub run_calls : List Call → Runner → Runner
unfolding call
run_calls [] r = r
run_calls (c ∷ cs) r = run_calls cs (call c r)
