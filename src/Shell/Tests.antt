-- ===== src/Shell/Tests.antt =====
-- Runs of agent/internal/shell/ring.go and flow.go at concrete inputs.
use everwas.Base.{
  contains, ◌≤◌, ◌≡◌, refl, true, false, List, [], ◌∷◌, some, none, ◌⊎◌, arith, length,
}
use everwas.Base.Int.{pos}
use everwas.Base.Text.{codes}
use everwas.Shell.Ring
use everwas.Shell.Ring.{Ring, call_write, call_drain}
use everwas.Shell.Ring.Refine.{buf-write_all}
use everwas.Shell.Flow
use everwas.Shell.Flow.{FlowController, call_sent, call_ack, call_release, proceed, wait}
use everwas.Shell.Flow.Gate.{IsGated, run_total, wait_wakes}

abbrev ring_of_four : Ring
ring_of_four = record { max = 4; buf = codes "ab"; dropped = false }

buf-write_all_example :
    ((Ring.write_all (codes "cd" ∷ codes "ef" ∷ []) ring_of_four).buf ≡ codes "cdef")
    × (length (Ring.write_all (codes "cd" ∷ codes "ef" ∷ []) ring_of_four).buf ≤ 4)
buf-write_all_example = buf-write_all (codes "cd" ∷ codes "ef" ∷ []) ring_of_four (omega arith)

abbrev calls : List Ring.Call
calls = call_write (codes "c") ∷ call_drain ∷ call_write (codes "xyz") ∷ []

abbrev small_flow : FlowController
small_flow = record {
  pause_above = pos 10;
  resume_below = pos 5;
  unacked = pos 12;
  paused = true;
  gate = some 0;
  made = 1;
  closed = [];
}

small_flow-IsGated : IsGated small_flow
unfolding contains
small_flow-IsGated = record { gate_fits = (refl, refl, omega arith); closed_made = tt }

run_total_example :
    (f' : FlowController) × (Flow.run (call_ack (pos 3) ∷ call_ack (pos 9) ∷ []) small_flow
      ≡ some f')
    × IsGated f'
run_total_example =
    run_total (call_ack (pos 3) ∷ call_ack (pos 9) ∷ []) small_flow small_flow-IsGated

abbrev resumed_flow : FlowController
resumed_flow = record small_flow { unacked = pos 0; paused = false; gate = none; closed = 0 ∷ [] }

wait_wakes_example :
    (wait (some 0) false resumed_flow ≡ proceed ∷ [])
    ⊎ ((resumed_flow.paused ≡ true)
        × (resumed_flow.gate ≡ some 0)
        × (wait (some 0) false resumed_flow ≡ []))
unfolding Flow.run Flow.step Flow.ack contains
wait_wakes_example =
    wait_wakes (call_ack (pos 3) ∷ call_ack (pos 9) ∷ []) small_flow 0 resumed_flow
      small_flow-IsGated refl refl

abbrev flood : List Flow.Call
flood = call_sent 32768 ∷ call_ack (pos 40000) ∷ call_sent 100 ∷ []

abbrev flooded : FlowController
flooded = record {
  pause_above = pos 524288;
  resume_below = pos 262144;
  unacked = pos 100;
  paused = false;
  gate = none;
  made = 0;
  closed = [];
}
