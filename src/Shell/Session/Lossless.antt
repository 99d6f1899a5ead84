-- ===== src/Shell/Session/Lossless.antt =====
-- Runs of a session of agent/internal/shell/session.go: what reaches the console, and what is still held.
use everwas.Shell.Ring.{new_ring}
use everwas.Base.{
  if◌then◌else◌, length, ◌==◌, ℕ, ◌≡◌, refl, sym, ap, ◌∙◌, Bool, true, false, Option, none, some,
  List, [], ◌∷◌, ◌++◌, arith, append_assoc, append-nil, Bool-cases, inl, inr, Each,
}
use everwas.Base.Text.{Text}
use everwas.Base.Int.{ℤ, negsuc}
use everwas.Shell.Session.{
  new_session, exited, Session, Link, Out, Reason, closed, publish_ctl, Event, reads, inputs,
  controls, ticks, exits, closes, mark_disconnected, flush, on_input, on_ctl, check_timeouts,
  expired, close, monitor, step, run, down_since,
}
use everwas.Shell.Session.Output.{
  if-IsLossless, Held-down, frames_of, has_gap, Held, IsReliable, IsLossless, IsLossless-idle,
  flush_since-IsLossless, emit-IsLossless, frames_of-append, has_gap-append,
}

abbrev pub block : Event → Text
block (reads p) = p
block (inputs p) = []
block (controls acked ping) = []
block ticks = []
block (exits code) = []
block (closes reason) = []

abbrev pub blocks : List (Link × Event) → Text
blocks [] = []
blocks (e ∷ es) = block e.1 ++ blocks es

publish_ctl-closed :
    (link : Link) (reason : Reason) (code : ℤ)
    → (frames_of (publish_ctl link (closed reason code)) ≡ [])
      × (has_gap (publish_ctl link (closed reason code)) ≡ false)
publish_ctl-closed link reason code = elim (Bool-cases link.control) [
  | inl c ↦ rw c (refl, refl)
  | inr c ↦ rw c (refl, refl)
]

close-IsLossless :
    (link : Link) (reason : Reason) (code : ℤ) (s : Session)
    → Held s.disconnected_at s.buf
    → IsLossless [] s (close link reason code s).0 (close link reason code s).1
unfolding close
close-IsLossless link reason code s h =
    if-IsLossless s.closing [] s _ _ (IsLossless-idle s [] s h refl refl refl) (
      IsLossless-idle s (publish_ctl link (closed reason code)) _ h
        (publish_ctl-closed link reason code).0 refl refl)

-- One handler after another.
then-IsLossless :
    (p q : Text) (s : Session) (outs : List Out) (s' : Session) (more : List Out) (s'' : Session)
    → IsLossless p s outs s'
    → IsLossless q s' more s''
    → IsLossless (p ++ q) s (outs ++ more) s''
then-IsLossless p q s outs s' more s'' h k = record {
  held = k.held;
  bytes = λ g d.
      let both = has_gap-append outs more in
      let (later, kept) = k.bytes (ground (arith, g, both)) d in
      let (first, kept') = h.bytes (ground (arith, g, both)) kept in
      (
        ap (λ t. t ++ s''.buf.buf) (frames_of-append outs more)
            ∙ append_assoc (frames_of outs) (frames_of more) s''.buf.buf
            ∙ ap (λ t. frames_of outs ++ t) later
            ∙ sym (append_assoc (frames_of outs) s'.buf.buf q)
            ∙ ap (λ t. t ++ q) first
            ∙ append_assoc s.buf.buf p q,
        kept',
      );
}

looks-IsLossless :
    (link : Link) (s : Session)
    → IsReliable link
    → Held s.disconnected_at s.buf
    → IsLossless [] s (check_timeouts link s).0 (check_timeouts link s).1.0
unfolding check_timeouts flush mark_disconnected
looks-IsLossless link s r h = at link.connected
  where
    at :
        (up : Bool)
        → let down : Session = record s {
          disconnected_at = down_since link.now s.disconnected_at;
        } in
          let (outs, s') = flush link s in
          let x : List Out × (Session × Option Reason) =
            if up then (outs, (s', expired link.now s')) else ([], (down, expired link.now down)) in
          IsLossless [] s x.0 x.1.0
    at true = (flush_since-IsLossless s.disconnected_at link s r refl h).0
    at false = record {
      held = Held-down link.now s.disconnected_at s.buf;
      bytes = λ g d. (sym (append-nil s.buf.buf), d);
    }

monitor-IsLossless :
    (link : Link) (s : Session)
    → IsReliable link
    → Held s.disconnected_at s.buf
    → IsLossless [] s (monitor link s).0 (monitor link s).1
unfolding monitor
monitor-IsLossless link s r h =
    let k = looks-IsLossless link s r h in at (check_timeouts link s).1.1 k
  where
    at :
        (reason : Option Reason)
        → IsLossless [] s (check_timeouts link s).0 (check_timeouts link s).1.0
        → let s' = (check_timeouts link s).1.0 in
          let outs = (check_timeouts link s).0 in
          let x : List Out × Session = elim reason [
            | none ↦ (outs, s')
            | some why ↦ let (last, s'') = close link why (negsuc 0) s' in (outs ++ last, s'')
          ] in
          IsLossless [] s x.0 x.1
    at none k = k
    at (some why) k =
        then-IsLossless [] [] s _ (check_timeouts link s).1.0 _ _ k
          (close-IsLossless link why (negsuc 0) (check_timeouts link s).1.0 k.held)

pub if-same :
    {B : Type 0}
    → (f : Session → B) (c : Bool) (s t : Session) (b : B) → f s ≡ b
    → f t ≡ b
    → f (if c then s else t) ≡ b
if-same f true s t b h k = h
if-same f false s t b h k = k

-- The handlers that take messages leave the ring and the link's state alone.
on_input-idle :
    (now : ℕ) (p : Text) (s : Session)
    → ((on_input now p s).buf ≡ s.buf) × ((on_input now p s).disconnected_at ≡ s.disconnected_at)
unfolding on_input
on_input-idle now p s = (
  if-same (λ (t : Session). t.buf) (length p == 0) s _ s.buf refl refl,
  if-same (λ (t : Session). t.disconnected_at) (length p == 0) s _ s.disconnected_at refl refl,
)

on_ctl-idle :
    (now : ℕ) (acked : Option ℤ) (ping : Bool) (s : Session)
    → ((on_ctl now acked ping s).buf ≡ s.buf)
      × ((on_ctl now acked ping s).disconnected_at ≡ s.disconnected_at)
unfolding on_ctl
on_ctl-idle now acked ping s = (
  if-same (λ (t : Session). t.buf) ping _ _ s.buf refl refl,
  if-same (λ (t : Session). t.disconnected_at) ping _ _ s.disconnected_at refl refl,
)

step-IsLossless :
    (link : Link) (e : Event) (s : Session)
    → IsReliable link
    → Held s.disconnected_at s.buf
    → IsLossless (block e) s (step link e s).0 (step link e s).1
unfolding step
step-IsLossless link (reads p) s r h = emit-IsLossless link p s r h
step-IsLossless link (inputs p) s r h =
    let (b, d) = on_input-idle link.now p s in
    if-IsLossless s.subscribed [] s _ _ (IsLossless-idle s [] (on_input link.now p s) h refl b d)
      (IsLossless-idle s [] s h refl refl refl)
step-IsLossless link (controls acked ping) s r h =
    let (b, d) = on_ctl-idle link.now acked ping s in
    if-IsLossless s.subscribed [] s _ _
      (IsLossless-idle s [] (on_ctl link.now acked ping s) h refl b d)
      (IsLossless-idle s [] s h refl refl refl)
step-IsLossless link ticks s r h =
    if-IsLossless s.cancelled [] s _ _ (IsLossless-idle s [] s h refl refl refl)
      (monitor-IsLossless link s r h)
step-IsLossless link (exits code) s r h = close-IsLossless link exited code s h
step-IsLossless link (closes reason) s r h = close-IsLossless link reason (negsuc 0) s h

run-IsLossless :
    (es : List (Link × Event)) (s : Session)
    → Each (λ e. IsReliable e.0) es
    → Held s.disconnected_at s.buf
    → IsLossless (blocks es) s (run es s).0 (run es s).1
unfolding run
run-IsLossless [] s r h = IsLossless-idle s [] s h refl refl refl
run-IsLossless (e ∷ es) s r h =
    let k = step-IsLossless e.0 e.1 s r.0 h in
    then-IsLossless (block e.1) (blocks es) s _ (step e.0 e.1 s).1 _ _ k
      (run-IsLossless es (step e.0 e.1 s).1 r.1 k.held)

-- Whatever happens to a new session, with the link going up and down in any order, and as long as publishes
-- get through while it is up: if no gap was announced and none is pending, the frames in order, followed by
-- what is held back, are all that was read from the terminal.
pub session_lossless :
    (es : List (Link × Event)) (id : Text) (idle_timeout_s : ℤ) (now : ℕ)
    → Each (λ e. IsReliable e.0) es
    → has_gap (run es (new_session id idle_timeout_s now)).0 ≡ false
    → (run es (new_session id idle_timeout_s now)).1.buf.dropped ≡ false
    → frames_of (run es (new_session id idle_timeout_s now)).0
        ++ (run es (new_session id idle_timeout_s now)).1.buf.buf
      ≡ blocks es
unfolding new_session new_ring
session_lossless es id idle_timeout_s now r g d =
    ((run-IsLossless es (new_session id idle_timeout_s now) r (refl, refl)).bytes g d).0
