-- ===== src/Update/Swap.antt =====
-- `Swap` and `RemoveBackup` of agent/internal/update/swap.go, on the four files of one target. The
-- target and the download are two files (`sameFile` is false). RestoreBackup stands with the tracker.
pub mod Undo
use everwas.Base.{Bool, true, false, ◌||◌, Option, none, some, if◌then◌else◌}
use everwas.Base.Text.{Text}
use everwas.Update.Disk.{
  on_error, remove_backup, rename_target, rename_new, undo_rename, remove_new, copy_staged, Disk,
  Op, Error, Result, ok, err, swap_error, Action, ◌>>=◌, ◌>>◌, pure, fail, ignore, attempt,
}

module _ (faults : Op → Bool) where
  -- A call that fails on a missing file too.
  abbrev pub with_file : Op → Option Text → (Text → Disk → Disk) → Action (Unit {0})
  with_file op none f d = (err (swap_error op), d)
  with_file op (some body) f d = if faults op then (err (swap_error op), d) else (ok tt, f body d)

  -- copyFile leaves no file behind where it fails before the last chmod.
  unfoldable pub copy_file : Action (Unit {0})
  copy_file d = with_file copy_staged d.staged_bin (λ body d. record d { new_bin = some body }) d

  unfoldable pub remove_new_bin : Action (Unit {0})
  remove_new_bin = attempt faults remove_new (λ d. record d { new_bin = none })

  -- The undoing of the first rename, whose failure is not looked at.
  unfoldable pub move_back : Action (Unit {0})
  move_back d =
      with_file undo_rename d.backup_bin
        (λ body d. record d { target_bin = some body; backup_bin = none }) d

  unfoldable pub move_in : Action (Unit {0})
  unfolding move_back remove_new_bin
  move_in =
      on_error
        (λ d.
          with_file rename_new d.new_bin
            (λ body d. record d { target_bin = some body; new_bin = none }) d)
        (do ignore move_back; ignore remove_new_bin; fail (swap_error rename_new))

  unfoldable pub move_aside : Action (Unit {0})
  unfolding remove_new_bin
  move_aside =
      on_error
        (λ d.
          with_file rename_target d.target_bin
            (λ body d. record d { backup_bin = some body; target_bin = none }) d)
        (do ignore remove_new_bin; fail (swap_error rename_target))

  -- A leftover spare binary is removed once the copy is complete.
  unfoldable pub swap : Action (Unit {0})
  unfolding copy_file move_aside move_in
  swap = do
    copy_file
    ignore (attempt faults remove_backup (λ d. record d { backup_bin = none }))
    move_aside
    move_in

  -- A spare binary that is missing already is no error.
  unfoldable pub drop_backup : Action (Unit {0})
  drop_backup = attempt faults remove_backup (λ d. record d { backup_bin = none })
