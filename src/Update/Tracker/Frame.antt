-- ===== src/Update/Tracker/Frame.antt =====
-- What the operations of agent/internal/update/rollback.go leave alone on the disk.
use everwas.Base.{arith, ℕ, Bool, true, false, ◌≡◌, some, none, []}
use everwas.Base.Text.{Text}
use everwas.Update.State.{State, pending}
use everwas.Update.Disk.{
  Disk, Op, ok, err, finalize_pending, load, save, drop_probation, drop_starts,
}
use everwas.Update.Tracker.{
  deny, record_start, mark_healthy, finish_rollback, reconcile_guard_rollback,
}

abbrev pub KeepsBinaries : Disk → Disk → Type 0
KeepsBinaries d d' = (d'.target_bin ≡ d.target_bin) × (d'.backup_bin ≡ d.backup_bin)

module _ (faults : Op → Bool) where
  pub save-KeepsBinaries : (st : State) (d : Disk) → KeepsBinaries d (save faults st d).1
  unfolding save
  save-KeepsBinaries st d = ground arith

  pub finish_rollback-KeepsBinaries :
      (st : State) (d : Disk) → KeepsBinaries d (finish_rollback faults st d).1
  unfolding finish_rollback save drop_probation drop_starts
  finish_rollback-KeepsBinaries st d = ground arith

  pub deny-KeepsBinaries : (v : Text) (d : Disk) → KeepsBinaries d (deny faults v d).1
  unfolding deny
  deny-KeepsBinaries v d = ground arith

  pub record_start-KeepsBinaries :
      (now : ℕ) (d : Disk) → KeepsBinaries d (record_start faults now d).1
  unfolding record_start save load
  record_start-KeepsBinaries now d = ground arith

  pub reconcile-KeepsBinaries : (d : Disk) → KeepsBinaries d (reconcile_guard_rollback faults d).1
  unfolding reconcile_guard_rollback finish_rollback save drop_probation drop_starts load
  reconcile-KeepsBinaries d = ground arith

  pub mark_healthy-KeepsBinaries :
      (now : ℕ) (unproven : Bool) (d : Disk)
      → KeepsBinaries d (mark_healthy faults now unproven d).1
  unfolding mark_healthy load save drop_probation drop_starts
  mark_healthy-KeepsBinaries now unproven d = ground arith

  -- Whatever calls fail: while the helper that finishes a swap has not reported, no build is declared
  -- healthy. The call reports the pending finalizer, or the error of reading the state, and every file
  -- stays as it is.
  pub mark_healthy-finalizing :
      (now : ℕ) (unproven : Bool) (st : State) (d : Disk)
      → d.state_file ≡ some (some st)
      → st.finalizing ≡ true
      → faults Op.read_state ≡ false
      → mark_healthy faults now unproven d ≡ (err (finalize_pending st.pending_version), d)
  unfolding mark_healthy load
  mark_healthy-finalizing now unproven st d e f r = ground arith

  -- Whatever calls fail: a call that succeeds on a pending update leaves a state that is healthy, and so no
  -- longer pending, with no start on record and nothing for the guard; the marker names the version; and
  -- whether it succeeds or not, the denylist and the two binaries, the spare one included, stay as they are.
  pub mark_healthy_lem :
      (now : ℕ) (unproven : Bool) (st : State) (d d' : Disk)
      → d.state_file ≡ some (some st)
      → pending st ≡ true
      → mark_healthy faults now unproven d ≡ (ok tt, d')
      → (d'.state_file
          ≡ some (
              some
                (record st { healthy = true; healthy_at = now; unproven = unproven; starts = [] })))
        × (d'.marker
            ≡ some (record { version = st.pending_version; healthy_at = now; unproven = unproven }))
        × (d'.probation_file ≡ none)
        × (d'.starts_file ≡ none)
        × (d'.denied_file ≡ d.denied_file)
        × KeepsBinaries d d'
  unfolding mark_healthy load save drop_probation drop_starts
  mark_healthy_lem now unproven st d d' e p r = ground arith
