-- ===== src/Update/Watch/Tests.antt =====
-- Watches of agent/internal/update/rollback.go at concrete inputs.
use everwas.Base.{◌≡◌, refl, true, false, [], ◌∷◌, ◌*◌}
use everwas.Base.Int.{pos, second, time_add}
use everwas.Update.Disk.{load, save, drop_probation, drop_starts}
use everwas.Update.State.{pending}
use everwas.Update.Tracker.{mark_healthy}
use everwas.Update.Tracker.Frame.{KeepsBinaries}
use everwas.Update.Tests.{fault_free, on_disk, in_flight}
use everwas.Update.Watch.{
  WatchConfig, normalized, Turn, confirmed, expired, mark, watch_turns, watch_start, watch,
}
use everwas.Update.Watch.Evidence.{Shows, watch_evidence}

abbrev defaults : WatchConfig
defaults = record { has_probe = true; least = pos 0; most = pos 0; interval = pos 0 }

abbrev silent : Turn
silent = record { now = 700 * second; proves = false; ended = false; ends = false }

abbrev proving : Turn
proving = record { now = 730 * second; proves = true; ended = false; ends = false }

abbrev late : Turn
late = record { now = 90000 * second; proves = false; ended = false; ends = false }

watch_evidence_example :
    let out = watch fault_free defaults 0 true (silent ∷ proving ∷ []) (on_disk in_flight) in
    let deadline = time_add (watch_start 0 in_flight) (normalized defaults).most in
    KeepsBinaries (on_disk in_flight) out.1
    × Shows
        (normalized defaults).has_probe
        deadline
        in_flight
        (on_disk in_flight)
        (silent ∷ proving ∷ [])
        out.1
        out.0
unfolding pending
watch_evidence_example =
    watch_evidence fault_free in_flight (on_disk in_flight) refl refl defaults 0 true
      (silent ∷ proving ∷ [])

watch_confirms :
    (watch fault_free defaults 0 true (silent ∷ proving ∷ []) (on_disk in_flight)).0 ≡ confirmed
unfolding watch normalized watch_turns mark mark_healthy load save pending drop_probation
    drop_starts
watch_confirms = refl

watch_expires :
    (watch fault_free defaults 0 true (silent ∷ late ∷ []) (on_disk in_flight)).0 ≡ expired
unfolding watch normalized watch_turns mark mark_healthy load save pending drop_probation
    drop_starts
watch_expires = refl
