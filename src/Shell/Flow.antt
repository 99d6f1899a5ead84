-- ===== src/Shell/Flow.antt =====
-- agent/internal/shell/flow.go. A method runs under the controller's mutex, so it is one step. A gate
-- channel is a number; the controller's record also keeps which numbers have been made and closed,
-- so that closing a nil or a closed channel, which panics, is `none`.
pub mod Gate
pub mod Bounds
use everwas.Base.{
  ℕ, suc, ◌+◌, Bool, true, false, not, ◌&&◌, Option, none, some, List, [], ◌∷◌, if◌then◌else◌,
  contains,
}
use everwas.Base.Int.{ℤ, pos, negsuc, leb_ℤ, ltb_ℤ, add_int64, sub_int64}

pub record FlowController : Type 0 where
  pub pause_above : ℤ
  pub resume_below : ℤ
  pub unacked : ℤ
  pub paused : Bool
  pub gate : Option ℕ
  pub made : ℕ
  pub closed : List ℕ

abbrev pub max_frame_bytes : ℕ
max_frame_bytes = 32768

abbrev pub pause_above_bytes : ℤ
pause_above_bytes = pos 524288

abbrev pub resume_below_bytes : ℤ
resume_below_bytes = pos 262144

unfoldable pub new_flow_controller_with : ℤ → ℤ → FlowController
new_flow_controller_with pause_above resume_below = record {
  pause_above = pause_above;
  resume_below = resume_below;
  unacked = pos 0;
  paused = false;
  gate = none;
  made = 0;
  closed = [];
}

unfoldable pub new_flow_controller : FlowController
unfolding new_flow_controller_with
new_flow_controller = new_flow_controller_with pause_above_bytes resume_below_bytes

-- `n` is the length of a frame.
unfoldable pub sent : ℕ → FlowController → FlowController × Bool
sent n f =
    let unacked = add_int64 f.unacked (pos n) in
    if not f.paused && ltb_ℤ f.pause_above unacked
    then (
      record f { unacked = unacked; paused = true; gate = some f.made; made = suc f.made },
      true,
    )
    else (record f { unacked = unacked }, f.paused)

-- `f.paused = false; close(f.gate); f.gate = nil`.
open_gate : Option ℕ → FlowController → Option FlowController
open_gate none f = none
open_gate (some g) f =
    if contains g f.closed
    then none
    else some (record f { paused = false; gate = none; closed = g ∷ f.closed })

-- The count after `f.unacked -= n`, held at 0 from below.
settle : ℤ → ℤ → ℤ
settle unacked n = let left = sub_int64 unacked n in if ltb_ℤ left (pos 0) then pos 0 else left

resumed : Option FlowController → Option (FlowController × Bool)
resumed none = none
resumed (some f) = some (f, true)

unfoldable pub ack : ℤ → FlowController → Option (FlowController × Bool)
unfolding open_gate settle resumed
ack n f =
    if leb_ℤ n (pos 0)
    then some (f, false)
    else let f' = record f { unacked = settle f.unacked n } in
      if f.paused && leb_ℤ f'.unacked f.resume_below
      then resumed (open_gate f.gate f')
      else some (f', false)

unfoldable pub release : FlowController → Option FlowController
unfolding open_gate
release f = if f.paused then open_gate f.gate f else some f

unfoldable pub is_paused : FlowController → Bool
is_paused f = f.paused

unfoldable pub unacked_bytes : FlowController → ℤ
unacked_bytes f = f.unacked

pub data WaitResult : Type 0 where
  proceed cancelled : WaitResult

-- What `wait` may return on a gate that it read at its start, in the state `f` and with the context
-- ended or not. A `select` with two ready cases takes either; no result means that it blocks.
unfoldable pub wait : Option ℕ → Bool → FlowController → List WaitResult
wait none done f = proceed ∷ []
wait (some g) done f =
    if contains g f.closed
    then (if done then proceed ∷ cancelled ∷ [] else proceed ∷ [])
    else (if done then cancelled ∷ [] else [])

pub data Call : Type 0 where
  call_sent : ℕ → Call
  call_ack : ℤ → Call
  call_release : Call

state_of : Option (FlowController × Bool) → Option FlowController
state_of none = none
state_of (some (f, resumed)) = some f

unfoldable pub step : Call → FlowController → Option FlowController
unfolding state_of
step (call_sent n) f = some (sent n f).0
step (call_ack n) f = state_of (ack n f)
step call_release f = release f

unfoldable pub run : List Call → FlowController → Option FlowController
run [] f = some f
run (c ∷ cs) f = elim (step c f) [ none ↦ none | some f' ↦ run cs f' ]
