-- ===== src/Shell/Session.antt =====
-- agent/internal/shell/session.go: one terminal session over its ring and its flow controller. A handler runs
-- under the session's mutexes, so it is one step; what it publishes comes before the session that it leaves.
pub mod Output
pub mod Closing
pub mod Watchdog
mod Tests
pub mod Lossless
use everwas.Base.{
  ℕ, zero, suc, ◌+◌, ◌-◌, ◌*◌, ◌≡◌, min, Bool, true, false, not, ◌&&◌, ◌||◌, Option, none, some,
  List, [], ◌∷◌, ◌++◌, if◌then◌else◌, length, take, drop, ◌==◌,
}
use everwas.Base.Int.{ℤ, pos, negsuc, ltb_ℤ, leb_ℤ, add_int64, time_sub, second, seconds}
use everwas.Base.Text.{Text, codes, text_eq}
use everwas.Shell.Ring.{Ring, new_ring, ring_bytes, write, drain}
use everwas.Shell.Flow.{FlowController, new_flow_controller, max_frame_bytes, sent, ack, release}

abbrev pub first_ping_grace : ℤ
first_ping_grace = pos (90 * second)

abbrev pub ping_timeout : ℤ
ping_timeout = pos (65 * second)

abbrev pub disconnect_grace : ℤ
disconnect_grace = pos (60 * second)

abbrev pub default_idle_timeout : ℤ
default_idle_timeout = pos (900 * second)

-- Why a session ends.
pub data Reason : Type 0 where
  exited idle disconnected server_gone requested shutdown : Reason

-- What a session publishes: a frame of output, and the events on the control channel.
pub data Out : Type 0 where
  frame : Text → Out
  gap : Out
  closed : Reason → ℤ → Out

-- The zero time of `disconnectedAt` is `none`.
pub record Session : Type 0 where
  pub id : Text
  pub idle_timeout : ℤ
  pub flow : FlowController
  pub buf : Ring
  pub started_at : ℕ
  pub last_input : ℕ
  pub last_ping : ℕ
  pub saw_ping : Bool
  pub disconnected_at : Option ℕ
  pub bytes_in : ℤ
  pub bytes_out : ℤ
  pub closing : Bool
  pub subscribed : Bool
  pub cancelled : Bool

unfoldable pub idle_timeout_of : ℤ → ℤ
idle_timeout_of sec = if leb_ℤ sec (pos 0) then default_idle_timeout else seconds sec

-- The session that `start` leaves where nothing fails.
unfoldable pub new_session : Text → ℤ → ℕ → Session
unfolding new_flow_controller new_ring idle_timeout_of
new_session id idle_timeout_s now = record {
  id = id;
  idle_timeout = idle_timeout_of idle_timeout_s;
  flow = new_flow_controller;
  buf = new_ring ring_bytes;
  started_at = now;
  last_input = now;
  last_ping = 0;
  saw_ping = false;
  disconnected_at = none;
  bytes_in = pos 0;
  bytes_out = pos 0;
  closing = false;
  subscribed = true;
  cancelled = false;
}

-- The link during a handler: whether it is up, whether control events get through, and how many frames do
-- before one does not, of those that were held back and of the new ones (`none`: all of them).
pub record Link : Type 0 where
  pub now : ℕ
  pub connected : Bool
  pub control : Bool
  pub held_back : Option ℕ
  pub fresh : Option ℕ

abbrev pub less : Option ℕ → Option ℕ
less none = none
less (some zero) = some zero
less (some (suc n)) = some n

abbrev pub is_broken : Option ℕ → Bool
is_broken none = false
is_broken (some zero) = true
is_broken (some (suc n)) = false

-- A frame takes at least one byte, so a round for each byte is enough.
unfoldable pub publish_rounds : ℕ → Option ℕ → Text → Session → List Out × Session
unfolding sent
publish_rounds zero works p s = ([], s)
publish_rounds (suc fuel) works [] s = ([], s)
publish_rounds (suc fuel) works (b ∷ p) s =
    let n = min (length (b ∷ p)) max_frame_bytes in
    let s' : Session = record s {
      flow = (sent n s.flow).0;
      bytes_out = add_int64 s.bytes_out (pos n);
    } in
    let rest = publish_rounds fuel (less works) (drop n (b ∷ p)) s' in
    if is_broken works then ([], s) else (frame (take n (b ∷ p)) ∷ rest.0, rest.1)

unfoldable pub publish_frames : Option ℕ → Text → Session → List Out × Session
unfolding publish_rounds
publish_frames works p s = publish_rounds (length p) works p s

abbrev pub publish_ctl : Link → Out → List Out
publish_ctl link out = if link.control then out ∷ [] else []

abbrev pub down_since : ℕ → Option ℕ → Option ℕ
down_since now none = some now
down_since now (some t) = some t

unfoldable pub mark_disconnected : ℕ → Session → Session
mark_disconnected now s = record s { disconnected_at = down_since now s.disconnected_at }

-- `flushLocked` after the link was down.
unfoldable pub resume : Link → Session → List Out × Session
unfolding drain publish_frames
resume link s =
    let ((pending, dropped), buf) = drain s.buf in
    let (frames, s') =
      publish_frames link.held_back pending (record s { disconnected_at = none; buf = buf }) in
    ((if dropped then publish_ctl link gap else []) ++ frames, s')

unfoldable pub flush_since : Option ℕ → Link → Session → List Out × Session
unfolding resume
flush_since none link s = ([], s)
flush_since (some t) link s = resume link s

unfoldable pub flush : Link → Session → List Out × Session
unfolding flush_since
flush link s = flush_since s.disconnected_at link s

unfoldable pub emit : Link → Text → Session → List Out × Session
unfolding flush mark_disconnected publish_frames write
emit link p s =
    let down = mark_disconnected link.now s in
    let (held, s') = flush link s in
    let (frames, s'') = publish_frames link.fresh p s' in
    if link.connected then (held ++ frames, s'') else ([], record down { buf = write p down.buf })

unfoldable pub on_input : ℕ → Text → Session → Session
on_input now p s =
    if length p == 0
    then s
    else record s { last_input = now; bytes_in = add_int64 s.bytes_in (pos (length p)) }

-- A panic in a handler is recovered and leaves the flow as it was; Shell.Flow.Gate shows that there is none.
abbrev pub flow_after : Option (FlowController × Bool) → FlowController → FlowController
flow_after none f = f
flow_after (some (f', resumed)) f = f'

abbrev pub flow_acked : Option ℤ → FlowController → FlowController
flow_acked none f = f
flow_acked (some n) f = flow_after (ack n f) f

-- A decoded control message: the count that it acknowledges, and whether it is a ping.
unfoldable pub on_ctl : ℕ → Option ℤ → Bool → Session → Session
unfolding ack
on_ctl now acked ping s =
    let s' : Session = record s { flow = flow_acked acked s.flow } in
    if ping then record s' { last_ping = now; saw_ping = true } else s'

abbrev is_down_for : ℕ → Option ℕ → Bool
is_down_for now none = false
is_down_for now (some t) = ltb_ℤ disconnect_grace (time_sub now t)

-- The decision of `checkTimeouts`, after it has looked at the link.
unfoldable pub expired : ℕ → Session → Option Reason
expired now s =
    if is_down_for now s.disconnected_at
    then some disconnected
    else if ltb_ℤ s.idle_timeout (time_sub now s.last_input)
    then some idle
    else if ltb_ℤ (if s.saw_ping then ping_timeout else first_ping_grace)
        (time_sub now (if s.saw_ping then s.last_ping else s.started_at))
    then some server_gone
    else none

unfoldable pub check_timeouts : Link → Session → List Out × (Session × Option Reason)
unfolding flush mark_disconnected expired
check_timeouts link s =
    let (outs, up) = flush link s in
    let down = mark_disconnected link.now s in
    if link.connected
    then (outs, (up, expired link.now up))
    else ([], (down, expired link.now down))

abbrev pub released : FlowController → FlowController
released f = elim (release f) [ none ↦ f | some f' ↦ f' ]

unfoldable pub close : Link → Reason → ℤ → Session → List Out × Session
unfolding release
close link reason code s = if s.closing then ([], s) else (
  publish_ctl link (closed reason code),
  record s { closing = true; subscribed = false; flow = released s.flow; cancelled = true },
)

-- One tick of `monitor`.
unfoldable pub monitor : Link → Session → List Out × Session
unfolding check_timeouts close
monitor link s =
    let (outs, (s', reason)) = check_timeouts link s in
    elim reason [
      | none ↦ (outs, s')
      | some r ↦ let (last, s'') = close link r (negsuc 0) s' in (outs ++ last, s'')
    ]

-- What happens to a session. A tick or a message after the end changes nothing: the monitor has stopped and
-- the subscriptions are gone; the pump may still read.
pub data Event : Type 0 where
  reads : Text → Event
  inputs : Text → Event
  controls : Option ℤ → Bool → Event
  ticks : Event
  exits : ℤ → Event
  closes : Reason → Event

unfoldable pub step : Link → Event → Session → List Out × Session
unfolding emit on_input on_ctl monitor close
step link (reads p) s = emit link p s
step link (inputs p) s = if s.subscribed then ([], on_input link.now p s) else ([], s)
step link (controls acked ping) s =
    if s.subscribed then ([], on_ctl link.now acked ping s) else ([], s)
step link ticks s = if s.cancelled then ([], s) else monitor link s
step link (exits code) s = close link exited code s
step link (closes reason) s = close link reason (negsuc 0) s

unfoldable pub run : List (Link × Event) → Session → List Out × Session
unfolding step
run [] s = ([], s)
run (e ∷ es) s =
    let (outs, s') = step e.0 e.1 s in let (rest, s'') = run es s' in (outs ++ rest, s'')
