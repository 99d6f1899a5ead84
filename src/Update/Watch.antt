-- ===== src/Update/Watch.antt =====
-- `Watch` of agent/internal/update/rollback.go: the probation of a new build over time.
pub mod Evidence
mod Tests
use everwas.Base.{ℕ, Bool, true, false, not, ◌&&◌, List, [], ◌∷◌, ltb, if◌then◌else◌, ◌==◌, ◌*◌}
use everwas.Base.Int.{ℤ, pos, leb_ℤ, ltb_ℤ, second, time_add}
use everwas.Update.State.{State, pending, min_probation, max_probation, probe_interval}
use everwas.Update.Disk.{Disk, Op, Error, Result, ok, err, finalize_pending, load}
use everwas.Update.Tracker.{mark_healthy}

-- `has_probe` is whether the probe is set.
pub record WatchConfig : Type 0 where
  pub has_probe : Bool
  pub least : ℤ
  pub most : ℤ
  pub interval : ℤ

abbrev or_default : ℤ → ℤ → ℤ
or_default d default = if leb_ℤ d (pos 0) then default else d

unfoldable pub normalized : WatchConfig → WatchConfig
normalized c =
    let least = or_default c.least (pos min_probation) in
    let most = or_default c.most (pos max_probation) in
    record {
      has_probe = c.has_probe;
      least = least;
      most = if ltb_ℤ most least then least else most;
      interval = or_default c.interval (pos probe_interval);
    }

-- A turn of the loop: the clock, whether the probe returns nil, and whether the context has ended when it
-- does not, or while the turn waits for the ticker.
pub record Turn : Type 0 where
  pub now : ℕ
  pub proves : Bool
  pub ended : Bool
  pub ends : Bool

-- How far a watch got: it goes on, the context has ended, the build was confirmed or its probation has
-- expired, the finalizer has not reported, or a call failed.
pub data WatchEnd : Type 0 where
  goes_on stopped confirmed expired stalled : WatchEnd
  fails : Error → WatchEnd

-- `mark`, where it took.
abbrev pub marked : WatchEnd → Result (Unit {0}) → WatchEnd
marked e (ok u) = e
marked e (err (finalize_pending v)) = stalled
marked e (err (Error.state_error op)) = fails (Error.state_error op)
marked e (err Error.no_backup) = fails Error.no_backup
marked e (err (Error.swap_error op)) = fails (Error.swap_error op)

abbrev pub watch_start : ℕ → State → ℕ
watch_start now st = if st.swapped_at == 0 then now else st.swapped_at

module _ (faults : Op → Bool) where
  unfoldable pub mark : WatchEnd → Bool → ℕ → Disk → WatchEnd × Disk
  unfolding mark_healthy
  mark e unproven now d = let (r, d') = mark_healthy faults now unproven d in (marked e r, d')

  unfoldable pub watch_turns : Bool → ℕ → List Turn → Disk → WatchEnd × Disk
  unfolding mark
  watch_turns has_probe deadline [] d = (goes_on, d)
  watch_turns has_probe deadline (t ∷ ts) d =
      let rest = watch_turns has_probe deadline ts d in
      if has_probe && t.proves
      then mark confirmed false t.now d
      else if has_probe && t.ended
      then (stopped, d)
      else if not (ltb t.now deadline)
      then mark expired true t.now d
      else if t.ends
      then (stopped, d)
      else rest

  -- `woken` is whether the context outlives the least probation.
  abbrev pub watch_loaded :
      WatchConfig → ℕ → Bool → List Turn → Result State → Disk → WatchEnd × Disk
  watch_loaded c now woken ts (err e) d = (fails e, d)
  watch_loaded c now woken ts (ok st) d =
      if not (pending st)
      then (stopped, d)
      else if not woken
      then (stopped, d)
      else watch_turns c.has_probe (time_add (watch_start now st) c.most) ts d

  unfoldable pub watch : WatchConfig → ℕ → Bool → List Turn → Disk → WatchEnd × Disk
  unfolding load normalized watch_turns pending
  watch c now woken ts d = watch_loaded (normalized c) now woken ts (load faults d).0 d

  -- `WatchHealth`.
  unfoldable pub watch_health : ℕ → Bool → List Turn → Disk → WatchEnd × Disk
  unfolding watch
  watch_health now woken ts d =
      let c : WatchConfig = record {
        has_probe = false;
        least = pos 0;
        most = pos 0;
        interval = pos 0;
      } in
      watch c now woken ts d
