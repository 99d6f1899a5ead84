-- ===== src/Shell/Module.antt =====
-- agent/internal/shell/shell.go: the live sessions. A method runs under the module's mutex, so it is one step.
pub mod Live
mod Tests
use everwas.Base.{
  ℕ, zero, suc, ◌+◌, ◌≡◌, Bool, true, false, not, ◌&&◌, ◌||◌, Option, none, some, List, [], ◌∷◌,
  ◌++◌, if◌then◌else◌, length, ltb, leb,
}
use everwas.Base.Int.{ℤ, negsuc}
use everwas.Base.Text.{Text, codes, text_eq}
use everwas.Wire.Identifier.{IdentifierError, check_identifier}
use everwas.Shell.Session.{
  Session, Link, Out, Reason, requested, shutdown, Event, new_session, close, step,
}

abbrev pub max_sessions : ℕ
max_sessions = 5

pub record Module : Type 0 where
  pub limit : ℕ
  pub sessions : List Session
  pub closed : Bool

unfoldable pub new_module : Module
new_module = record { limit = max_sessions; sessions = []; closed = false }

pub record OpenSpec : Type 0 where
  pub session_id : Text
  pub idle_timeout_s : ℤ

pub data OpenError : Type 0 where
  bad_identifier : Text × IdentifierError → OpenError
  shutting_down session_exists too_many_sessions start_failed : OpenError

-- `m.sessions[id]`.
unfoldable pub has_session : Text → List Session → Bool
has_session id [] = false
has_session id (s ∷ ss) = text_eq s.id id || has_session id ss

-- `starts` is whether the terminal and the three subscriptions were made.
unfoldable pub open_session : Bool → ℕ → OpenSpec → Module → Option OpenError × Module
unfolding has_session new_session check_identifier
open_session starts now spec m = elim (check_identifier (codes "session_id") spec.session_id) [
  | some e ↦ (some (bad_identifier e), m)
  | none ↦
      if m.closed
      then (some shutting_down, m)
      else if has_session spec.session_id m.sessions
      then (some session_exists, m)
      else if leb m.limit (length m.sessions)
      then (some too_many_sessions, m)
      else if not starts
      then (some start_failed, m)
      else (
        none,
        record m { sessions = new_session spec.session_id spec.idle_timeout_s now ∷ m.sessions },
      )
]

-- What a handler does with the session of an id. A session that it closes is forgotten: `onClose`.
unfoldable pub with_session :
    (Session → List Out × Session) → Text → List Session → List Out × List Session
with_session f id [] = ([], [])
with_session f id (s ∷ ss) =
    let (outs, s') = f s in
    let (later, rest) = with_session f id ss in
    if text_eq s.id id then (outs, if s'.closing then ss else s' ∷ ss) else (later, s ∷ rest)

-- A session's own handlers and monitor.
unfoldable pub session_event : Link → Event → Text → Module → List Out × Module
unfolding with_session step
session_event link e id m =
    let (outs, rest) = with_session (step link e) id m.sessions in
    (outs, record m { sessions = rest })

-- `Close`: whether there is such a session, what it published, and the sessions left.
unfoldable pub close_session : Link → Text → Module → Bool × List Out × Module
unfolding has_session with_session close
close_session link id m =
    let (outs, rest) = with_session (close link requested (negsuc 0)) id m.sessions in
    if has_session id m.sessions then (true, outs, record m { sessions = rest }) else (false, [], m)

unfoldable pub close_all : Link → List Session → List Out
unfolding close
close_all link [] = []
close_all link (s ∷ ss) = (close link shutdown (negsuc 0) s).0 ++ close_all link ss

-- `shutdown`, when every session that it found has been closed, and so forgotten.
unfoldable pub shut_down : Link → Module → List Out × Module
unfolding close_all
shut_down link m = (close_all link m.sessions, record m { sessions = []; closed = true })

unfoldable pub count : Module → ℕ
count m = length m.sessions

-- The calls of a module, in the order of its mutex.
pub data Call : Type 0 where
  opens : Bool → ℕ → OpenSpec → Call
  events : Link → Event → Text → Call
  closes_one : Link → Text → Call
  shuts_down : Link → Call

unfoldable pub call : Call → Module → Module
unfolding open_session session_event close_session shut_down
call (opens starts now spec) m = (open_session starts now spec m).1
call (events link e id) m = (session_event link e id m).1
call (closes_one link id) m = (close_session link id m).2
call (shuts_down link) m = (shut_down link m).1

unfoldable pub run : List Call → Module → Module
unfolding call
run [] m = m
run (c ∷ cs) m = run cs (call c m)
