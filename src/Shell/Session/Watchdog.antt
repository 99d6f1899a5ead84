-- ===== src/Shell/Session/Watchdog.antt =====
-- The watchdog of agent/internal/shell/session.go: a session that no bridge has ever pinged.
use everwas.Base.{
  ℕ, ◌≡◌, refl, sym, ◌∙◌, Bool, true, false, Option, none, some, List, [], ◌∷◌, ◌++◌, if◌then◌else◌,
  length, ◌==◌, arith, any_of,
}
use mathlib.Core.Path.{subst}
use everwas.Base.Int.{ℤ, negsuc, ltb_ℤ, time_sub}
use everwas.Shell.Session.{
  Text, flush, mark_disconnected, down_since, emit, Session, Link, Out, Reason, Event, reads,
  inputs, controls, ticks, exits, closes, on_input, on_ctl, check_timeouts, expired, close, monitor,
  step, run, new_session, first_ping_grace, exited,
}
use everwas.Shell.Session.Lossless.{if-same}
use everwas.Shell.Session.Closing.{Core, core, looks-IsQuiet, emit-IsQuiet, close-IsCounted}

abbrev pub is_ping : Link × Event → Bool
is_ping (link, controls acked ping) = ping
is_ping (link, reads p) = false
is_ping (link, inputs p) = false
is_ping (link, ticks) = false
is_ping (link, exits code) = false
is_ping (link, closes reason) = false

-- Never pinged, and its monitor runs exactly while it is open.
abbrev IsUnheard : ℕ → Core → Type 0
IsUnheard start c = (c.0.0 ≡ false) × (c.0.1 ≡ start) × (c.1.0 ≡ c.1.1)

if-IsUnheard :
    (start : ℕ) (c : Bool) (x y : List Out × Session)
    → IsUnheard start (core x.1)
    → IsUnheard start (core y.1)
    → IsUnheard start (core (if c then x else y).1)
if-IsUnheard start true x y h k = h
if-IsUnheard start false x y h k = k

same-IsUnheard :
    (start : ℕ) (s s' : Session)
    → core s' ≡ core s
    → IsUnheard start (core s)
    → IsUnheard start (core s')
same-IsUnheard start s s' q h = subst (λ c. IsUnheard start c) (sym q) h

close-IsUnheard :
    (start : ℕ) (link : Link) (reason : Reason) (code : ℤ) (s : Session)
    → IsUnheard start (core s)
    → IsUnheard start (core (close link reason code s).1)
unfolding close
close-IsUnheard start link reason code s h = if-IsUnheard start s.closing _ _ h (h.0, h.1, refl)

monitor-IsUnheard :
    (start : ℕ) (link : Link) (s : Session)
    → IsUnheard start (core s)
    → IsUnheard start (core (monitor link s).1)
unfolding monitor
monitor-IsUnheard start link s h = at (check_timeouts link s).1.1
  where
    looked : IsUnheard start (core (check_timeouts link s).1.0)
    looked = same-IsUnheard start s (check_timeouts link s).1.0 (looks-IsQuiet link s).1 h

    at :
        (reason : Option Reason)
        → let s' = (check_timeouts link s).1.0 in
          let outs = (check_timeouts link s).0 in
          let x : List Out × Session = elim reason [
            | none ↦ (outs, s')
            | some why ↦ let (last, s'') = close link why (negsuc 0) s' in (outs ++ last, s'')
          ] in
          IsUnheard start (core x.1)
    at none = looked
    at (some why) = close-IsUnheard start link why (negsuc 0) (check_timeouts link s).1.0 looked

step-IsUnheard :
    (start : ℕ) (link : Link) (e : Event) (s : Session)
    → is_ping (link, e) ≡ false
    → IsUnheard start (core s)
    → IsUnheard start (core (step link e s).1)
unfolding step on_input on_ctl
step-IsUnheard start link (reads p) s q h =
    same-IsUnheard start s (emit link p s).1 (emit-IsQuiet link p s).1 h
step-IsUnheard start link (inputs p) s q h =
    if-IsUnheard start s.subscribed _ _
      (same-IsUnheard start s (on_input link.now p s)
        (if-same core (length p == 0) s _ (core s) refl refl) h)
      h
step-IsUnheard start link (controls acked ping) s q h =
    if-IsUnheard start s.subscribed _ _ (rw q h) h
step-IsUnheard start link ticks s q h =
    if-IsUnheard start s.cancelled _ _ h (monitor-IsUnheard start link s h)
step-IsUnheard start link (exits code) s q h = close-IsUnheard start link exited code s h
step-IsUnheard start link (closes reason) s q h = close-IsUnheard start link reason (negsuc 0) s h

run-IsUnheard :
    (start : ℕ) (es : List (Link × Event)) (s : Session)
    → any_of is_ping es ≡ false
    → IsUnheard start (core s)
    → IsUnheard start (core (run es s).1)
unfolding run
run-IsUnheard start [] s q h = h
run-IsUnheard start (e ∷ es) s q h =
    run-IsUnheard start es (step e.0 e.1 s).1 (ground (arith, q))
      (step-IsUnheard start e.0 e.1 s (ground (arith, q)) h)

expired-none :
    (now : ℕ) (s : Session)
    → s.saw_ping ≡ false
    → ltb_ℤ first_ping_grace (time_sub now s.started_at) ≡ true
    → expired now s ≡ none
    → ⊥
unfolding expired
expired-none now s q late e = ground (arith, e, q, late)

-- What `checkTimeouts` answers is its decision on the session that it leaves.
verdict :
    (link : Link) (s : Session)
    → (check_timeouts link s).1.1 ≡ expired link.now (check_timeouts link s).1.0
unfolding check_timeouts flush mark_disconnected
verdict link s = at link.connected
  where
    at :
        (up : Bool)
        → let down : Session = record s {
          disconnected_at = down_since link.now s.disconnected_at;
        } in
          let (outs, s') = flush link s in
          let x : List Out × (Session × Option Reason) =
            if up then (outs, (s', expired link.now s')) else ([], (down, expired link.now down)) in
          x.1.1 ≡ expired link.now x.1.0
    at true = refl
    at false = refl

ticks-closing :
    (start : ℕ) (link : Link) (s : Session)
    → IsUnheard start (core s)
    → ltb_ℤ first_ping_grace (time_sub link.now start) ≡ true
    → (step link ticks s).1.closing ≡ true
unfolding step monitor
ticks-closing start link s h late = at s.cancelled refl
  where
    looked : IsUnheard start (core (check_timeouts link s).1.0)
    looked = same-IsUnheard start s (check_timeouts link s).1.0 (looks-IsQuiet link s).1 h

    ended :
        (reason : Option Reason)
        → (check_timeouts link s).1.1 ≡ reason
        → let s' = (check_timeouts link s).1.0 in
          let outs = (check_timeouts link s).0 in
          let x : List Out × Session = elim reason [
            | none ↦ (outs, s')
            | some why ↦ let (last, s'') = close link why (negsuc 0) s' in (outs ++ last, s'')
          ] in
          x.1.closing ≡ true
    ended none e = absurd (
        expired-none link.now (check_timeouts link s).1.0 looked.0 (rw looked.1 late)
          (sym (verdict link s) ∙ e))
    ended (some why) e = (close-IsCounted link why (negsuc 0) (check_timeouts link s).1.0).1

    at : (c : Bool) → s.cancelled ≡ c → (if c then ([], s) else monitor link s).1.closing ≡ true
    at true q = h.2 ∙ q
    at false q = ended (check_timeouts link s).1.1 refl

-- A session that no bridge has ever pinged is closing after the first tick that comes more than 90 seconds
-- after it was opened, whatever was typed, acknowledged or read until then, and however the link went.
pub unheard_closes :
    (es : List (Link × Event)) (link : Link) (id : Text) (idle_timeout_s : ℤ) (start : ℕ)
    → any_of is_ping es ≡ false
    → ltb_ℤ first_ping_grace (time_sub link.now start) ≡ true
    → (step link ticks (run es (new_session id idle_timeout_s start)).1).1.closing ≡ true
unfolding new_session
unheard_closes es link id idle_timeout_s start q late =
    ticks-closing start link (run es (new_session id idle_timeout_s start)).1
      (run-IsUnheard start es (new_session id idle_timeout_s start) q (refl, refl, refl)) late
