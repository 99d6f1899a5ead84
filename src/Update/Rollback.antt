-- ===== src/Update/Rollback.antt =====
-- CheckAndRollback and Report of agent/internal/update/rollback.go, and the outcome of a probation that
-- Watch runs.
pub mod Binaries
pub mod CrashLoop
pub mod Guard
use everwas.Base.{ℕ, Bool, true, false, if◌then◌else◌, Option, none, some, List, []}
use everwas.Base.Text.{Text}
use everwas.Update.State.{State, pending, should_rollback, Report, report_of, no_state}
use everwas.Update.Disk.{Disk, Op, Error, Result, ok, err, Action, ◌>>=◌, ◌>>◌, pure, load}
use everwas.Update.Tracker.{
  external_starts, denied, deny, record_start, finish_rollback, rolled_back_state,
  reconcile_guard_rollback, restore_backup,
}

-- Whether to exit, and the error that is reported beside it.
pub record Checked : Type 0 where
  pub rolled : Bool
  pub error : Option Error

abbrev pub checked : Bool → Option Error → Checked
checked rolled error = record { rolled = rolled; error = error }

-- `return rolled, f()`.
abbrev pub finish : Bool → Result (Unit {0}) → Checked
finish rolled (ok u) = checked rolled none
finish rolled (err e) = checked rolled (some e)

module _ (faults : Op → Bool) where
  -- The part after a failed RestoreBackup.
  unfoldable pub give_up : State → Error → Disk → Checked × Disk
  unfolding finish_rollback
  give_up st e d =
      let (r, d') =
        finish_rollback faults (record st { rolled_back = true; pending_version = [] }) d in
      (elim r [ ok u ↦ checked false (some e) | err save_err ↦ checked false (some save_err) ], d')

  -- The part after a RestoreBackup that worked.
  unfoldable pub record_rollback : State → Disk → Checked × Disk
  unfolding finish_rollback deny
  record_rollback st d =
      let (r, d') =
        (do deny faults st.pending_version; finish_rollback faults (rolled_back_state faults st))
          d in
      (finish true r, d')

  unfoldable pub after_restore : State → Result (Unit {0}) → Disk → Checked × Disk
  after_restore st (err e) d = give_up st e d
  after_restore st (ok u) d = record_rollback st d

  unfoldable pub restore_and_record : State → Disk → Checked × Disk
  unfolding restore_backup after_restore
  restore_and_record st d = let (r, d') = restore_backup faults d in after_restore st r d'

  unfoldable pub after_start : ℕ → Result State → Disk → Checked × Disk
  unfolding should_rollback external_starts restore_and_record
  after_start now (err e) d = (checked false (some e), d)
  after_start now (ok st) d =
      if should_rollback st (external_starts faults d) now
      then restore_and_record st d
      else (checked false none, d)

  unfoldable pub count_and_decide : ℕ → Disk → Checked × Disk
  unfolding record_start after_start
  count_and_decide now d = let (r, d') = record_start faults now d in after_start now r d'

  unfoldable pub after_reconcile : ℕ → Result Bool → Disk → Checked × Disk
  unfolding count_and_decide
  after_reconcile now (err e) d = (checked false (some e), d)
  after_reconcile now (ok done) d = if done then (checked false none, d) else count_and_decide now d

  unfoldable pub check_and_rollback : ℕ → Disk → Checked × Disk
  unfolding reconcile_guard_rollback after_reconcile
  check_and_rollback now d =
      let (r, d') = reconcile_guard_rollback faults d in after_reconcile now r d'

  -- The report that is published, with the error of reading the state.
  unfoldable pub report : Disk → Report × Option Error
  unfolding load report_of denied
  report d = elim (load faults d).0 [
    | err e ↦ (report_of no_state [], some e)
    | ok st ↦ (report_of st (denied faults d), none)
  ]
