-- ===== src/Agentcore/Tests.antt =====
-- The supervisor and the loops of agent/internal/agentcore at concrete inputs.
use everwas.Base.{◌≡◌, ◌≢◌, ◌*◌, refl, true, false, some, List, [], ◌∷◌, Each, length, suc}
use everwas.Base.Int.{second, pos}
use everwas.Base.Text.{codes, contains_text, has_prefix}
use everwas.Netcert.Phase.{Material, phase_at}
use everwas.Netcert.Renewal.{other_error, not_configured}
use everwas.Update.State.{pending}
use everwas.Update.Tests.{fault_free, on_disk, in_flight}
use everwas.Update.Watch.{WatchConfig, watch, confirmed}
use everwas.Agentcore.Supervise.{
  Life, panics, returns_nil, supervise, initial_backoff, renewed, refused, failed, supervised_asks,
}
use everwas.Agentcore.Supervise.Backoff.{IsBackoff, Restarts, Doubles, supervise-Restarts}
use everwas.Agentcore.Supervise.Refused.{ticks, refused_asks_on}
use everwas.Agentcore.Certificates.{NetcertConfig, Check}
use everwas.Agentcore.Certificates.Warnings.{alarms}
use everwas.Agentcore.Link.{
  AsyncError, Round, turns, record_async_error, new_link_health, is_permission_violation,
}
use everwas.Agentcore.Link.Sticky.{denied-unconfirmed}

-- A task that crashes at once, and one that has nothing to do; then the agent stops.
abbrev lives : List Life
lives =
    record { end = panics (codes "nil map"); ran = 5; stopped = false; stopped_waiting = false }
    ∷ record { end = returns_nil; ran = 90 * second; stopped = false; stopped_waiting = false }
    ∷ record { end = returns_nil; ran = 1; stopped = true; stopped_waiting = false }
    ∷ []

supervise-Restarts_example :
    let (rs, stopped) = supervise initial_backoff lives in
    Each (λ r. IsBackoff r.backoff) rs
    × Restarts lives rs stopped
    × Doubles initial_backoff lives rs
supervise-Restarts_example = supervise-Restarts lives

refused_asks_on_example :
    supervised_asks
      (suc (length (renewed ∷ refused ∷ failed ∷ [])))
      (renewed ∷ refused ∷ failed ∷ [])
    ≡ ticks (renewed ∷ refused ∷ failed ∷ [])
refused_asks_on_example = refused_asks_on (renewed ∷ refused ∷ failed ∷ [])

abbrev config : NetcertConfig
config = record {
  device = 7;
  every = 43200 * second;
  urgent_every = 3600 * second;
  warns = true;
  observes = true;
}

abbrev held : Material
held = record { not_before = 0; not_after = 100 * second; serial = codes "1f"; issued = false }

abbrev three_checks : List Check
three_checks =
    record { now = 60 * second; held = some held; error = some other_error }
    ∷ record { now = 95 * second; held = some held; error = some other_error }
    ∷ record { now = 96 * second; held = some held; error = some not_configured }
    ∷ []

one_warning : alarms config three_checks ≡ 1
unfolding phase_at
one_warning = refl

abbrev denial : AsyncError
denial = record { is_sentinel = false; text = codes "nats: Permissions Violation for Subscription" }

abbrev rounds : List Round
rounds =
    record {
      errors = [];
      now = 700 * second;
      findings = record { connected = true; flushes = true; ready = true };
      ended = false;
      ends = false;
    }
    ∷ []

abbrev defaults : WatchConfig
defaults = record { has_probe = true; least = pos 0; most = pos 0; interval = pos 0 }

denied-unconfirmed_example :
    (watch fault_free defaults 0 true
      (turns rounds (record_async_error 9 (some denial) new_link_health))
      (on_disk in_flight)).0
    ≢ confirmed
unfolding pending is_permission_violation contains_text has_prefix
denied-unconfirmed_example =
    denied-unconfirmed fault_free in_flight (on_disk in_flight) defaults 0 9 true denial
      new_link_health rounds refl refl refl
