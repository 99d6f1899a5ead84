-- ===== src/Shell/Session/Tests.antt =====
-- Runs of agent/internal/shell/session.go and shell.go at concrete inputs.
use everwas.Base.{ℕ, ◌+◌, ◌*◌, ◌≡◌, refl, Bool, true, false, none, some, List, [], ◌∷◌, ◌++◌}
use everwas.Base.Int.{pos, second}
use everwas.Base.Text.{codes}
use everwas.Shell.Ring.{new_ring, write, drain}
use everwas.Shell.Flow.{new_flow_controller, new_flow_controller_with, sent, ack, release}
use everwas.Shell.Session.{
  Session, Link, frame, Event, reads, inputs, controls, ticks, exits, closes, requested,
  new_session, idle_timeout_of, publish_rounds, publish_frames, resume, flush_since,
  mark_disconnected, flush, emit, on_input, on_ctl, check_timeouts, expired, close, monitor, step,
  run,
}
use everwas.Shell.Session.Output.{frames_of, IsReliable}
use everwas.Shell.Session.Lossless.{blocks, session_lossless}
use everwas.Shell.Session.Watchdog.{unheard_closes}

abbrev start : ℕ
start = 1000 * second

abbrev link_at : ℕ → Bool → Link
link_at now up = record {
  now = now;
  connected = up;
  control = true;
  held_back = none;
  fresh = none;
}

abbrev session : Session
session = new_session (codes "s") (pos 0) start

-- The link goes down after the first block, and comes back before the third.
abbrev outage : List (Link × Event)
outage =
    (link_at start true, reads (codes "a"))
    ∷ (link_at (start + second) false, reads (codes "b"))
    ∷ (link_at (start + 2 * second) true, controls (some (pos 1)) false)
    ∷ (link_at (start + 3 * second) true, reads (codes "c"))
    ∷ (link_at (start + 4 * second) true, closes requested)
    ∷ (link_at (start + 5 * second) true, exits (pos 0))
    ∷ []

reliable : (now : ℕ) (up : Bool) → IsReliable (link_at now up)
reliable now up = (refl, refl, refl)

session_lossless_example :
    frames_of (run outage session).0 ++ (run outage session).1.buf.buf ≡ blocks outage
unfolding run step emit on_input on_ctl ack monitor close check_timeouts expired flush flush_since
    resume publish_frames publish_rounds mark_disconnected new_session idle_timeout_of new_ring
    write drain new_flow_controller new_flow_controller_with sent release
session_lossless_example =
    session_lossless outage (codes "s") (pos 0) start
      (
        reliable start true,
        (
          reliable (start + second) false,
          (
            reliable (start + 2 * second) true,
            (
              reliable (start + 3 * second) true,
              (reliable (start + 4 * second) true, (reliable (start + 5 * second) true, tt)),
            ),
          ),
        ),
      )
      refl refl

abbrev typing : List (Link × Event)
typing =
    (link_at (start + 80 * second) true, inputs (codes "ls"))
    ∷ (link_at (start + 85 * second) true, ticks)
    ∷ (link_at (start + 86 * second) true, controls (some (pos 1)) false)
    ∷ []

unheard_closes_example :
    (step (link_at (start + 91 * second) true) ticks (run typing session).1).1.closing ≡ true
unheard_closes_example =
    unheard_closes typing (link_at (start + 91 * second) true) (codes "s") (pos 0) start refl refl

-- A frame whose publish fails is lost, and no gap is announced.
lost_without_gap :
    (run
      ((record (link_at start true) { fresh = some 0 }, reads (codes "a"))
        ∷ (link_at (start + second) true, reads (codes "b"))
        ∷ [])
      session).0
    ≡ frame (codes "b") ∷ []
unfolding run step emit flush flush_since publish_frames publish_rounds mark_disconnected
    new_session idle_timeout_of new_ring new_flow_controller new_flow_controller_with sent write
lost_without_gap = refl
