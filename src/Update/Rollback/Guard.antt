-- ===== src/Update/Rollback/Guard.antt =====
-- The rollback that the external guard performed, as CheckAndRollback of agent/internal/update/rollback.go
-- finds it.
use everwas.Base.{ℕ, Bool, true, false, ◌≡◌, some, none, arith}
use everwas.Update.State.{State, pending}
use everwas.Update.Disk.{Disk, Op, load, save, drop_probation, drop_starts}
use everwas.Update.Tracker.{reconcile_guard_rollback, finish_rollback, is_denied, deny}
use everwas.Update.Tracker.Frame.{KeepsBinaries}
use everwas.Update.Rollback.{
  after_restore, after_start, after_reconcile, checked, check_and_rollback, record_rollback,
}

abbrev works : Op → Bool
works op = false

-- Where the guard has put the old binary back (it removed the probation file and listed the version), the
-- start after it does not exit, touches no binary, and leaves the state file, the probation file and the
-- guard's starts as a rollback in the process itself would have, on the same disk, if no call fails.
pub reconcile-record_rollback :
    (now : ℕ) (st : State) (d : Disk)
    → d.state_file ≡ some (some st)
    → pending st ≡ true
    → st.rolled_back ≡ false
    → d.probation_file ≡ none
    → is_denied works st.pending_version d ≡ true
    → ((check_and_rollback works now d).0 ≡ checked false none)
      × KeepsBinaries d (check_and_rollback works now d).1
      × ((check_and_rollback works now d).1.state_file ≡ (record_rollback works st d).1.state_file)
      × ((check_and_rollback works now d).1.probation_file ≡ none)
      × ((check_and_rollback works now d).1.starts_file ≡ none)
      × ((record_rollback works st d).1.starts_file ≡ none)
unfolding check_and_rollback after_reconcile after_start after_restore reconcile_guard_rollback
    record_rollback finish_rollback save load drop_probation drop_starts deny
reconcile-record_rollback now st d e p r n den = ground arith
