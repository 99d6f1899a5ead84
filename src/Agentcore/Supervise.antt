-- ===== src/Agentcore/Supervise.antt =====
-- agent/internal/agentcore/agentcore.go: `supervise`, `runRecovered` and the loop that renews the credential.
pub mod Backoff
pub mod Refused
use everwas.Base.{
  ℕ, zero, suc, ◌+◌, ◌*◌, min, Bool, true, false, Option, none, some, List, [], ◌∷◌, ltb,
  if◌then◌else◌,
}
use everwas.Base.Int.{second}
use everwas.Base.Text.{Text}

abbrev pub initial_backoff : ℕ
initial_backoff = second

abbrev pub max_backoff : ℕ
max_backoff = 60 * second

-- How a task's function ends, and what runRecovered makes of it: its error, or nil.
pub data TaskEnd : Type 0 where
  returns_nil : TaskEnd
  returns_error panics : Text → TaskEnd

unfoldable pub recovered : TaskEnd → Option Text
recovered returns_nil = none
recovered (returns_error e) = some e
recovered (panics e) = some e

-- One life of a task: how it ends, how long it ran, whether the context has ended by then, and whether it
-- ends before the backoff is over.
pub record Life : Type 0 where
  pub end : TaskEnd
  pub ran : ℕ
  pub stopped : Bool
  pub stopped_waiting : Bool

-- A restart that was logged: the error, and the backoff before the next life.
pub record Restart : Type 0 where
  pub error : Option Text
  pub backoff : ℕ

-- A task that ran a while has its crash treated as a fresh one.
abbrev pub backoff_after : ℕ → ℕ → ℕ
backoff_after ran backoff = if ltb max_backoff ran then initial_backoff else backoff

-- The restarts of a task that lives these lives, and whether it was told to stop.
unfoldable pub supervise : ℕ → List Life → List Restart × Bool
unfolding recovered
supervise backoff [] = ([], false)
supervise backoff (l ∷ ls) =
    let wait = backoff_after l.ran backoff in
    let rest = supervise (min (wait * 2) max_backoff) ls in
    let restart : Restart = record { error = recovered l.end; backoff = wait } in
    if l.stopped
    then ([], true)
    else if l.stopped_waiting
    then (restart ∷ [], true)
    else (restart ∷ rest.0, rest.1)

-- What comes of a tick of the renewal's ticker, or the end of the context.
pub data Renewal : Type 0 where
  renewed refused failed done : Renewal

-- A run of renewLoop: how often it asked, whether it returned the error of the context (it returns nil
-- after a refusal), and what it has not seen.
pub record RenewRun : Type 0 where
  pub asked : ℕ
  pub cancelled : Bool
  pub rest : List Renewal

abbrev pub asked_once_more : RenewRun → RenewRun
asked_once_more r = record r { asked = suc r.asked }

-- Where the list ends the loop waits for its ticker, as after the last event.
unfoldable pub renew_loop : List Renewal → RenewRun
renew_loop [] = record { asked = 0; cancelled = true; rest = [] }
renew_loop (done ∷ rs) = record { asked = 0; cancelled = true; rest = rs }
renew_loop (refused ∷ rs) = record { asked = 1; cancelled = false; rest = rs }
renew_loop (renewed ∷ rs) = asked_once_more (renew_loop rs)
renew_loop (failed ∷ rs) = asked_once_more (renew_loop rs)

-- The loop under its supervisor, which starts it again after each return while the context lives: how often
-- it asked in all. Each turn but the last uses up an event.
unfoldable pub supervised_asks : ℕ → List Renewal → ℕ
unfolding renew_loop
supervised_asks zero rs = 0
supervised_asks (suc fuel) rs =
    let r = renew_loop rs in
    let again = supervised_asks fuel r.rest in r.asked + (if r.cancelled then 0 else again)
