-- ===== src/Shell/Session/Closing.antt =====
-- The end of a session of agent/internal/shell/session.go: it comes once, and it comes for a session that the
-- server has left.
use everwas.Base.{
  ◌==◌, ℕ, zero, suc, ◌+◌, ◌≤◌, ◌≡◌, refl, ap, ◌∙◌, min, Bool, true, false, Option, none, some,
  List, [], ◌∷◌, ◌++◌, if◌then◌else◌, length, drop, arith, Bool-cases, inl, inr,
}
use everwas.Base.Text.{Text}
use everwas.Base.Int.{ℤ, pos, negsuc, add_int64}
use everwas.Shell.Ring.{drain}
use everwas.Shell.Flow.{max_frame_bytes, sent}
use everwas.Shell.Session.{
  released, drain, Session, Link, Out, Reason, frame, gap, closed, publish_ctl, Event, reads,
  inputs, controls, ticks, exits, closes, publish_rounds, publish_frames, resume, flush_since,
  mark_disconnected, flush, emit, on_input, on_ctl, check_timeouts, expired, close, monitor, step,
  run, down_since, less, is_broken, exited,
}
use everwas.Shell.Session.Lossless.{if-same}

abbrev pub closings : List Out → ℕ
closings [] = 0
closings (frame p ∷ outs) = closings outs
closings (gap ∷ outs) = closings outs
closings (closed reason code ∷ outs) = suc (closings outs)

pub closings-append : (os ps : List Out) → closings (os ++ ps) ≡ closings os + closings ps
closings-append [] ps = omega arith
closings-append (frame p ∷ os) ps = closings-append os ps
closings-append (gap ∷ os) ps = closings-append os ps
closings-append (closed reason code ∷ os) ps = omega (arith, closings-append os ps)

-- What the handlers of output leave alone.
abbrev pub Core : Type 0
Core = (Bool × ℕ) × (Bool × Bool) × Text

abbrev pub core : Session → Core
core s = ((s.saw_ping, s.started_at), (s.closing, s.cancelled), s.id)

abbrev pub IsQuiet : Session → List Out × Session → Type 0
IsQuiet s x = (closings x.0 ≡ 0) × (core x.1 ≡ core s)

if-IsQuiet :
    (c : Bool) (s : Session) (x y : List Out × Session)
    → IsQuiet s x
    → IsQuiet s y
    → IsQuiet s (if c then x else y)
if-IsQuiet true s x y h k = h
if-IsQuiet false s x y h k = k

publish_rounds-IsQuiet :
    (fuel : ℕ) (works : Option ℕ) (p : Text) (s : Session)
    → IsQuiet s (publish_rounds fuel works p s)
unfolding publish_rounds
publish_rounds-IsQuiet zero works p s = (refl, refl)
publish_rounds-IsQuiet (suc fuel) works [] s = (refl, refl)
publish_rounds-IsQuiet (suc fuel) works (b ∷ p) s =
    let n = min (length (b ∷ p)) max_frame_bytes in
    let s' : Session = record s {
      flow = (sent n s.flow).0;
      bytes_out = add_int64 s.bytes_out (pos n);
    } in
    let k = publish_rounds-IsQuiet fuel (less works) (drop n (b ∷ p)) s' in
    if-IsQuiet (is_broken works) s ([], s) _ (refl, refl) k

publish_ctl-gap :
    (link : Link) (dropped : Bool) → closings (if dropped then publish_ctl link gap else []) ≡ 0
publish_ctl-gap link dropped = elim (Bool-cases link.control) [
  | inl c ↦ elim (Bool-cases dropped) [ inl d ↦ rw (c, d) refl | inr d ↦ rw (c, d) refl ]
  | inr c ↦ elim (Bool-cases dropped) [ inl d ↦ rw (c, d) refl | inr d ↦ rw (c, d) refl ]
]

flush_since-IsQuiet :
    (since : Option ℕ) (link : Link) (s : Session) → IsQuiet s (flush_since since link s)
unfolding flush_since resume drain publish_frames
flush_since-IsQuiet none link s = (refl, refl)
flush_since-IsQuiet (some t) link s =
    let k =
      publish_rounds-IsQuiet (length s.buf.buf) link.held_back s.buf.buf
        (record s { disconnected_at = none; buf = record s.buf { buf = []; dropped = false } }) in
    (
      closings-append (if s.buf.dropped then publish_ctl link gap else []) _
          ∙ omega (arith, publish_ctl-gap link s.buf.dropped, k.0),
      k.1,
    )

pub emit-IsQuiet : (link : Link) (p : Text) (s : Session) → IsQuiet s (emit link p s)
unfolding emit flush mark_disconnected publish_frames
emit-IsQuiet link p s =
    let f = flush_since-IsQuiet s.disconnected_at link s in
    let k = publish_rounds-IsQuiet (length p) link.fresh p (flush link s).1 in
    if-IsQuiet link.connected s _ _
      (closings-append (flush link s).0 _ ∙ omega (arith, f.0, k.0), k.1 ∙ f.1) (refl, refl)

pub looks-IsQuiet :
    (link : Link) (s : Session) → IsQuiet s ((check_timeouts link s).0, (check_timeouts link s).1.0)
unfolding check_timeouts flush mark_disconnected
looks-IsQuiet link s = at link.connected
  where
    at :
        (up : Bool)
        → let down : Session = record s {
          disconnected_at = down_since link.now s.disconnected_at;
        } in
          let (outs, s') = flush link s in
          let x : List Out × (Session × Option Reason) =
            if up then (outs, (s', expired link.now s')) else ([], (down, expired link.now down)) in
          IsQuiet s (x.0, x.1.0)
    at true = flush_since-IsQuiet s.disconnected_at link s
    at false = (refl, refl)

-- An end that comes counts, and none comes after it.
abbrev weight : Bool → ℕ
weight b = if b then 1 else 0

abbrev IsCounted : Session → List Out × Session → Type 0
IsCounted s x = closings x.0 + weight s.closing ≤ weight x.1.closing

IsQuiet-IsCounted : (s : Session) (x : List Out × Session) → IsQuiet s x → IsCounted s x
IsQuiet-IsCounted s x h =
    let same : x.1.closing ≡ s.closing = ap (λ (c : Core). c.1.0) h.1 in
    rw (same, h.0) (omega arith)

publish_ctl-closed :
    (link : Link) (reason : Reason) (code : ℤ)
    → closings (publish_ctl link (closed reason code)) ≤ 1
publish_ctl-closed link reason code = elim (Bool-cases link.control) [
  | inl c ↦ rw c (omega arith)
  | inr c ↦ rw c (omega arith)
]

pub close-IsCounted :
    (link : Link) (reason : Reason) (code : ℤ) (s : Session)
    → IsCounted s (close link reason code s) × ((close link reason code s).1.closing ≡ true)
unfolding close
close-IsCounted link reason code s = at s.closing refl
  where
    at :
        (c : Bool)
        → s.closing ≡ c
        → let x : List Out × Session = if c then ([], s) else (
          publish_ctl link (closed reason code),
          record s { closing = true; subscribed = false; flow = released s.flow; cancelled = true },
        ) in
          IsCounted s x × (x.1.closing ≡ true)
    at true q = (rw q (omega arith), q)
    at false q = (rw q (omega (arith, publish_ctl-closed link reason code)), refl)

monitor-IsCounted : (link : Link) (s : Session) → IsCounted s (monitor link s)
unfolding monitor
monitor-IsCounted link s = at (check_timeouts link s).1.1
  where
    at :
        (reason : Option Reason)
        → let s' = (check_timeouts link s).1.0 in
          let outs = (check_timeouts link s).0 in
          let x : List Out × Session = elim reason [
            | none ↦ (outs, s')
            | some why ↦ let (last, s'') = close link why (negsuc 0) s' in (outs ++ last, s'')
          ] in
          IsCounted s x
    at none =
        IsQuiet-IsCounted s ((check_timeouts link s).0, (check_timeouts link s).1.0)
          (looks-IsQuiet link s)
    at (some why) =
        let s' = (check_timeouts link s).1.0 in
        let outs = (check_timeouts link s).0 in
        let (n, c) = looks-IsQuiet link s in
        let same : s'.closing ≡ s.closing = ap (λ (c : Core). c.1.0) c in
        let k = (close-IsCounted link why (negsuc 0) s').0 in
        let w : weight s'.closing ≡ weight s.closing = ap (λ b. weight b) same in
        omega (arith, closings-append outs (close link why (negsuc 0) s').0, n, k, w)

if-IsCounted :
    (c : Bool) (s : Session) (x y : List Out × Session)
    → IsCounted s x
    → IsCounted s y
    → IsCounted s (if c then x else y)
if-IsCounted true s x y h k = h
if-IsCounted false s x y h k = k

message-IsCounted : (s s' : Session) → s'.closing ≡ s.closing → IsCounted s ([], s')
message-IsCounted s s' q = rw q (omega arith)

step-IsCounted : (link : Link) (e : Event) (s : Session) → IsCounted s (step link e s)
unfolding step on_input on_ctl
step-IsCounted link (reads p) s = IsQuiet-IsCounted s (emit link p s) (emit-IsQuiet link p s)
step-IsCounted link (inputs p) s =
    if-IsCounted s.subscribed s _ _
      (message-IsCounted s (on_input link.now p s)
        (if-same (λ (t : Session). t.closing) (length p == 0) s _ s.closing refl refl))
      (message-IsCounted s s refl)
step-IsCounted link (controls acked ping) s =
    if-IsCounted s.subscribed s _ _
      (message-IsCounted s (on_ctl link.now acked ping s)
        (if-same (λ (t : Session). t.closing) ping _ _ s.closing refl refl))
      (message-IsCounted s s refl)
step-IsCounted link ticks s =
    if-IsCounted s.cancelled s _ _ (message-IsCounted s s refl) (monitor-IsCounted link s)
step-IsCounted link (exits code) s = (close-IsCounted link exited code s).0
step-IsCounted link (closes reason) s = (close-IsCounted link reason (negsuc 0) s).0

run-IsCounted : (es : List (Link × Event)) (s : Session) → IsCounted s (run es s)
unfolding run
run-IsCounted [] s = omega arith
run-IsCounted (e ∷ es) s =
    let (outs, s') = step e.0 e.1 s in
    let (rest, s'') = run es s' in
    omega (arith, closings-append outs rest, step-IsCounted e.0 e.1 s, run-IsCounted es s')

weight-le : (b : Bool) → weight b ≤ 1
weight-le true = omega arith
weight-le false = omega arith

-- Whatever asks a session to end, in any order and however often, it publishes at most one closed event, and
-- none once it is closing.
pub session_closes_once :
    (es : List (Link × Event)) (s : Session)
    → closings (run es s).0 + (if s.closing then 1 else 0) ≤ 1
session_closes_once es s = omega (arith, run-IsCounted es s, weight-le (run es s).1.closing)
