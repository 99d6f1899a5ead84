-- ===== src/Update/Rollback/Binaries.antt =====
-- What CheckAndRollback of agent/internal/update/rollback.go does to the two binaries.
use everwas.Base.Text.{Text}
use everwas.Base.{[], ◌⊎◌, ℕ, Bool, true, false, ◌≡◌, refl, some, none, arith}
use everwas.Update.State.{State}
use everwas.Update.Disk.{drop_starts, drop_probation, Disk, Op, Error, Result, ok, err, save}
use everwas.Update.Tracker.{
  deny, finish_rollback, record_start, reconcile_guard_rollback, restore_backup,
}
use everwas.Update.Tracker.Frame.{
  KeepsBinaries, record_start-KeepsBinaries, reconcile-KeepsBinaries, finish_rollback-KeepsBinaries,
}
use everwas.Update.Rollback.{
  after_reconcile, after_start, after_restore, Checked, check_and_rollback, count_and_decide,
  restore_and_record, give_up, record_rollback,
}

-- The spare binary is moved to the target.
abbrev pub Restores : Disk → Disk → Type 0
Restores d d' =
    (old : Text) × (d.backup_bin ≡ some old) × (d'.target_bin ≡ some old) × (d'.backup_bin ≡ none)

abbrev pub Touches : Disk → Checked → Disk → Type 0
Touches d c d' = (KeepsBinaries d d' ⊎ Restores d d') × (c.rolled ≡ true → Restores d d')

module _ (faults : Op → Bool) where
  give_up-KeepsBinaries :
      (st : State) (e : Error) (d : Disk)
      → KeepsBinaries d (give_up faults st e d).1 × ((give_up faults st e d).0.rolled ≡ false)
  unfolding give_up
  give_up-KeepsBinaries st e d = ground (
    arith,
    finish_rollback-KeepsBinaries faults (record st { rolled_back = true; pending_version = [] }) d,
  )

  record_rollback-KeepsBinaries :
      (st : State) (d : Disk) → KeepsBinaries d (record_rollback faults st d).1
  unfolding record_rollback finish_rollback save drop_probation drop_starts deny
  record_rollback-KeepsBinaries st d = ground arith

  after_restore-Touches :
      (st : State) (d d' : Disk) (r : Result (Unit {0}))
      → KeepsBinaries d d' ⊎ Restores d d'
      → (r ≡ ok tt → Restores d d')
      → Touches d (after_restore faults st r d').0 (after_restore faults st r d').1
  unfolding after_restore
  after_restore-Touches st d d' (err e) w h = ground (arith, give_up-KeepsBinaries st e d')
  after_restore-Touches st d d' (ok u) w h =
      ground (arith, record_rollback-KeepsBinaries st d', h refl)

  restore_backup-Restores :
      (d : Disk)
      → (KeepsBinaries d (restore_backup faults d).1 ⊎ Restores d (restore_backup faults d).1)
        × ((restore_backup faults d).0 ≡ ok tt → Restores d (restore_backup faults d).1)
  unfolding restore_backup
  restore_backup-Restores d = ground arith

  restore_and_record-Touches :
      (st : State) (d : Disk)
      → Touches d (restore_and_record faults st d).0 (restore_and_record faults st d).1
  unfolding restore_and_record
  restore_and_record-Touches st d =
      let (w, h) = restore_backup-Restores d in
      after_restore-Touches st d (restore_backup faults d).1 (restore_backup faults d).0 w h

  -- A step before it keeps the binaries.
  Touches-after :
      (d e d' : Disk) (c : Checked) → KeepsBinaries d e → Touches e c d' → Touches d c d'
  Touches-after d e d' c k t = ground arith

  after_start-Touches :
      (now : ℕ) (r : Result State) (d : Disk)
      → Touches d (after_start faults now r d).0 (after_start faults now r d).1
  unfolding after_start
  after_start-Touches now (err e) d = ground arith
  after_start-Touches now (ok st) d = ground (arith, restore_and_record-Touches st d)

  count_and_decide-Touches :
      (now : ℕ) (d : Disk)
      → Touches d (count_and_decide faults now d).0 (count_and_decide faults now d).1
  unfolding count_and_decide
  count_and_decide-Touches now d =
      let r = (record_start faults now d).0 in
      let d' = (record_start faults now d).1 in
      Touches-after d d' (after_start faults now r d').1 (after_start faults now r d').0
        (record_start-KeepsBinaries faults now d) (after_start-Touches now r d')

  after_reconcile-Touches :
      (now : ℕ) (r : Result Bool) (d : Disk)
      → Touches d (after_reconcile faults now r d).0 (after_reconcile faults now r d).1
  unfolding after_reconcile
  after_reconcile-Touches now (err e) d = ground arith
  after_reconcile-Touches now (ok done) d = ground (arith, count_and_decide-Touches now d)

  -- Whatever calls fail: a start that is told to exit has moved the spare binary to the target; any other
  -- start either did the same (and a later call failed) or left both binaries as they were.
  pub check_and_rollback-Touches :
      (now : ℕ) (d : Disk)
      → Touches d (check_and_rollback faults now d).0 (check_and_rollback faults now d).1
  unfolding check_and_rollback
  check_and_rollback-Touches now d =
      let r = (reconcile_guard_rollback faults d).0 in
      let d' = (reconcile_guard_rollback faults d).1 in
      Touches-after d d' (after_reconcile faults now r d').1 (after_reconcile faults now r d').0
        (reconcile-KeepsBinaries faults d) (after_reconcile-Touches now r d')
