-- ===== src/Update/Swap/Undo.antt =====
-- What `Swap` of agent/internal/update/swap.go leaves at the target on each path.
use everwas.Base.{Bool, true, ◌≡◌, some, none, arith, ◌⊎◌}
use everwas.Base.Text.{Text}
use everwas.Update.Disk.{Disk, Op, ok}
use everwas.Update.Swap.{swap, copy_file, move_aside, move_in, move_back, remove_new_bin}

module _ (faults : Op → Bool) where
  -- A swap that succeeds has put the download at the target and the binary that ran beside it. One that
  -- fails has left the target as it was, whatever call failed, unless the renames into place and back both
  -- fail, and then the old binary is the spare one. The download stays where it is, and a host with a binary
  -- at the target has one at the target or beside it after every swap.
  pub swap_lem :
      (running : Text) (d : Disk)
      → d.target_bin ≡ some running
      → let (r, d') = swap faults d in
        (d'.staged_bin ≡ d.staged_bin)
        × (r ≡ ok tt
            → (d'.target_bin ≡ d.staged_bin) × (d'.backup_bin ≡ some running) × (d'.new_bin ≡ none))
        × ((r ≡ ok tt → ⊥)
            → (d'.target_bin ≡ some running)
              ⊎ ((d'.target_bin ≡ none)
                  × (d'.backup_bin ≡ some running)
                  × (faults Op.rename_new ≡ true)
                  × (faults Op.undo_rename ≡ true)))
  unfolding swap copy_file move_aside move_in move_back remove_new_bin
  swap_lem running d e = ground arith
