-- ===== src/Update/Tests.antt =====
-- Runs of agent/internal/update at concrete inputs.
use everwas.Base.{Bool, true, false, ◌≡◌, refl, some, none, [], ◌∷◌, ◌++◌, arith, ◌*◌}
use everwas.Base.Int.{second}
use everwas.Base.Text.{codes, text_eq, member, trim_space, split}
use everwas.Update.State.{pending, State, no_state}
use everwas.Update.Disk.{Disk, Op}
use everwas.Update.Tracker.Frame.{KeepsBinaries}
use everwas.Update.Tracker.{is_denied, rolled_back_state}
use everwas.Update.Rollback.{check_and_rollback, record_rollback, checked}
use everwas.Update.Rollback.Binaries.{Touches, check_and_rollback-Touches}
use everwas.Update.Rollback.Guard.{reconcile-record_rollback}
use everwas.Update.Rollback.CrashLoop.{begun, crash_loop, start, begun_disk}

abbrev pub fault_free : Op → Bool
fault_free op = false

abbrev pub settled : State
settled = record no_state { previous_version = codes "1.0"; denied = codes "0.9" ∷ [] }

abbrev pub on_disk : State → Disk
on_disk st = record {
  state_file = some (some st);
  marker = none;
  probation_file = none;
  starts_file = none;
  denied_file = some (codes "1.2" ++ 10 ∷ []);
  target_bin = some (codes "new");
  backup_bin = some (codes "old");
  new_bin = none;
  staged_bin = some (codes "new");
}

abbrev pub in_flight : State
in_flight = record no_state {
  pending_version = codes "1.2";
  previous_version = codes "1.1";
  target = codes "/a";
  backup = codes "/a.old";
  swapped_at = 5 * second;
}

check_and_rollback-Touches_example :
    Touches
      (on_disk in_flight)
      (check_and_rollback fault_free (9 * second) (on_disk in_flight)).0
      (check_and_rollback fault_free (9 * second) (on_disk in_flight)).1
check_and_rollback-Touches_example =
    check_and_rollback-Touches fault_free (9 * second) (on_disk in_flight)

crash_loop_example :
    let d1 =
      begun_disk
        (5 * second)
        (codes "1.2")
        (codes "1.1")
        (codes "/a")
        (codes "/a.old")
        (on_disk settled) in
    let d2 = (start (6 * second) d1).1 in
    let d3 = (start (7 * second) d2).1 in
    let d4 = (start (8 * second) d3).1 in
    ((start (6 * second) d1).0 ≡ checked false none)
    × ((start (7 * second) d2).0 ≡ checked false none)
    × ((start (8 * second) d3).0 ≡ checked true none)
    × (d4.state_file
        ≡ some (
            some (
              rolled_back_state fault_free (
                begun
                  (5 * second)
                  (codes "1.2")
                  (codes "1.1")
                  (codes "/a")
                  (codes "/a.old")
                  settled.denied))))
    × (d4.target_bin ≡ some (codes "old"))
    × (d4.probation_file ≡ none)
    × (d4.starts_file ≡ none)
crash_loop_example =
    crash_loop (5 * second) (6 * second) (7 * second) (8 * second) (codes "1.2") (codes "1.1")
      (codes "/a") (codes "/a.old") (codes "old") settled (on_disk settled) refl refl refl refl refl
      (omega arith) (omega arith) (omega arith)

reconcile-record_rollback_example :
    let d = on_disk in_flight in
    ((check_and_rollback fault_free (9 * second) d).0 ≡ checked false none)
    × KeepsBinaries d (check_and_rollback fault_free (9 * second) d).1
    × ((check_and_rollback fault_free (9 * second) d).1.state_file
        ≡ (record_rollback fault_free in_flight d).1.state_file)
    × ((check_and_rollback fault_free (9 * second) d).1.probation_file ≡ none)
    × ((check_and_rollback fault_free (9 * second) d).1.starts_file ≡ none)
    × ((record_rollback fault_free in_flight d).1.starts_file ≡ none)
unfolding pending is_denied member split trim_space text_eq
reconcile-record_rollback_example =
    reconcile-record_rollback (9 * second) in_flight (on_disk in_flight) refl refl refl refl refl

abbrev handed_off : State
handed_off = record in_flight { finalizing = true; finalizer_pid = 7 }

abbrev proven : Disk
proven = record (on_disk (record in_flight { healthy = true; healthy_at = 9 * second })) {
  marker = some (record { version = codes "1.2"; healthy_at = 9 * second; unproven = false });
}
