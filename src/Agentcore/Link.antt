-- ===== src/Agentcore/Link.antt =====
-- agent/internal/agentcore: linkhealth.go, certreport.go, and the probe of agentcore.go that a new build must
-- pass.
pub mod Sticky
use everwas.Base.{
  ℕ, suc, Bool, true, false, not, ◌||◌, Option, none, some, List, [], ◌∷◌, if◌then◌else◌, is_some,
}
use everwas.Base.Text.{Text, codes, to_lower, contains_text}
use everwas.Netcert.Phase.{Material}
use everwas.Update.Watch.{Turn}

-- An error: whether `errors.Is` finds the package's own sentinel in it, and its text.
pub record AsyncError : Type 0 where
  pub is_sentinel : Bool
  pub text : Text

pub record LinkHealth : Type 0 where
  pub violation : Option AsyncError
  pub at : ℕ
  pub count : ℕ

abbrev pub new_link_health : LinkHealth
new_link_health = record { violation = none; at = 0; count = 0 }

unfoldable pub is_permission_violation : AsyncError → Bool
is_permission_violation e =
    e.is_sentinel || contains_text (codes "permissions violation") (to_lower e.text)

unfoldable pub record_async_error : ℕ → Option AsyncError → LinkHealth → LinkHealth
unfolding is_permission_violation
record_async_error now none h = h
record_async_error now (some e) h = record h {
  violation = if is_permission_violation e then some e else h.violation;
  at = if is_permission_violation e then now else h.at;
  count = suc h.count;
}

-- What the heartbeat reports of the certificate.
pub record CertReport : Type 0 where
  pub serial : Text
  pub not_after : ℕ

unfoldable pub set_report : Option Material → CertReport
set_report none = record { serial = []; not_after = 0 }
set_report (some m) = record { serial = m.serial; not_after = m.not_after }

pub data ProbeError : Type 0 where
  not_connected no_round_trip not_ready denied : ProbeError

-- What a probe finds: the connection, its flush and the jobs module, each in order or not.
pub record Findings : Type 0 where
  pub connected : Bool
  pub flushes : Bool
  pub ready : Bool

-- `link` is none where the supervisor has no LinkHealth.
unfoldable pub probe : Findings → Option LinkHealth → Option ProbeError
probe f link =
    if not f.connected
    then some not_connected
    else if not f.flushes
    then some no_round_trip
    else if not f.ready
    then some not_ready
    else elim link [ none ↦ none | some h ↦ if is_some h.violation then some denied else none ]

-- A turn of the watch: the errors that arrived before it, the clock, the findings, and the context.
pub record Round : Type 0 where
  pub errors : List (Option AsyncError)
  pub now : ℕ
  pub findings : Findings
  pub ended : Bool
  pub ends : Bool

unfoldable pub record_all : ℕ → List (Option AsyncError) → LinkHealth → LinkHealth
unfolding record_async_error
record_all now [] h = h
record_all now (e ∷ es) h = record_all now es (record_async_error now e h)

-- The turns that the probe makes of the rounds.
unfoldable pub turns : List Round → LinkHealth → List Turn
unfolding probe record_all
turns [] h = []
turns (r ∷ rs) h =
    let h' = record_all r.now r.errors h in
    let turn : Turn = record {
      now = r.now;
      proves = not (is_some (probe r.findings (some h')));
      ended = r.ended;
      ends = r.ends;
    } in
    turn ∷ turns rs h'
