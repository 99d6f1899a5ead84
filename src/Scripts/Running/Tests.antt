-- ===== src/Scripts/Running/Tests.antt =====
-- Cancelled runs of agent/internal/scripts/runner.go at concrete inputs.
use everwas.Base.{◌≡◌, refl, true, false, some, List, [], ◌∷◌, ◌⊎◌, Each}
use everwas.Base.Text.{codes, text_eq, member}
use everwas.Scripts.Job.{timeout, set_reason}
use everwas.Scripts.Running.{
  Call, registers, unregisters, kills_by, call, run_calls, new_runner, register, unregister,
  set_running, delete_running, stop, stop_at, find_running, cancel, cancel_found, running_ids,
}
use everwas.Scripts.Running.Cancelled.{IsOnce, kills_of, cancel_kills}

-- A job that timed out is cancelled; another has ended.
abbrev calls_made : List Call
calls_made =
    registers (codes "a")
    ∷ registers (codes "b")
    ∷ kills_by 0 timeout
    ∷ unregisters (codes "b")
    ∷ []

cancel_kills_example :
    let r = run_calls calls_made new_runner in
    let (found, r') = cancel (codes "a") r in
    (Each IsOnce r'.handles)
    × (((found ≡ true)
          × (member (codes "a") (running_ids r) ≡ true)
          × (kills_of (find_running (codes "a") r'.running) r'.handles ≡ some 1))
        ⊎ ((found ≡ false) × (member (codes "a") (running_ids r) ≡ false) × (r' ≡ r)))
cancel_kills_example = cancel_kills calls_made (codes "a")

cancel_finds :
    ((cancel (codes "a") (run_calls calls_made new_runner)).0 ≡ true)
    × ((cancel (codes "b") (run_calls calls_made new_runner)).0 ≡ false)
unfolding cancel cancel_found find_running run_calls call register unregister set_running
    delete_running stop_at stop set_reason text_eq
cancel_finds = (refl, refl)
