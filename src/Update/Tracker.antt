-- ===== src/Update/Tracker.antt =====
-- `Tracker` of agent/internal/update/rollback.go, over the files of `Update.Disk`. The clock is the
-- argument `now`: one reading serves each call.
pub mod Frame
pub mod Denylist
use everwas.Base.{
  ℕ, zero, suc, ◌+◌, ◌-◌, ◌*◌, Bool, true, false, not, ◌&&◌, ◌||◌, Option, none, some, List, [],
  ◌∷◌, ◌++◌, ltb, leb, ◌==◌, if◌then◌else◌, length, keep_last,
}
use everwas.Base.Int.{unix_time, ℤ, pos, add_int64, pos_part, second}
use everwas.Base.Text.{Text, text_eq, member, trim_space, split}
use everwas.Base.Decimal.{parse_int64}
use everwas.Update.State.{
  State, no_state, is_empty, pending, should_rollback, append_denied, Report, report_of, Status,
  max_starts_tracked, max_denied_tracked,
}
use everwas.Update.Disk.{
  Disk, Probation, Marker, Op, Error, Result, ok, err, finalize_pending, no_backup, state_error,
  swap_error, Action, continue, ◌>>=◌, ◌>>◌, pure, fail, ignore, attempt, load, save, drop_state,
  drop_marker, drop_probation, drop_starts,
}

-- The lines of the guard's file that are numbers, as instants.
unfoldable pub start_times : List Text → List ℕ
start_times [] = []
start_times (line ∷ lines) =
    let rest = start_times lines in
    if is_empty (trim_space line)
    then rest
    else elim (parse_int64 (trim_space line)) [ none ↦ rest | some secs ↦ unix_time secs ∷ rest ]

-- `add` of `Denied`, for each version in turn; what is in `out` is what has been seen.
unfoldable pub add_all : List Text → List Text → List Text
add_all out [] = out
add_all out (v ∷ vs) =
    let w = trim_space v in add_all (if is_empty w || member w out then out else out ++ w ∷ []) vs

abbrev pub file_lines : Option Text → List Text
file_lines none = []
file_lines (some raw) = split 10 raw

module _ (faults : Op → Bool) where
  -- Clear keeps the denylist; the loop stops at the first file that cannot be removed.
  unfoldable pub clear : Action (Unit {0})
  unfolding drop_state drop_marker drop_probation drop_starts
  clear = do drop_state faults; drop_marker faults; drop_probation faults; drop_starts faults

  unfoldable pub write_probation : State → Action (Unit {0})
  write_probation st = do
    attempt faults Op.mkdir (λ d. d)
    attempt faults Op.write_probation (λ d. d)
    attempt faults Op.rename_probation (λ d. record d {
      probation_file = some (record {
        version = st.pending_version;
        previous = st.previous_version;
        target = st.target;
        backup = st.backup;
        swapped_at = st.swapped_at;
        finalizing = st.finalizing;
      });
    })

  unfoldable pub begin_update : ℕ → Text → Text → Text → Text → Action (Unit {0})
  unfolding load save write_probation drop_marker drop_starts
  begin_update now new_version prev_version target backup = do
    prior ← load faults
    ignore (drop_marker faults)
    ignore (drop_starts faults)
    let st : State = record no_state {
      pending_version = new_version;
      previous_version = prev_version;
      target = target;
      backup = backup;
      swapped_at = now;
      denied = prior.denied;
    }
    save faults st
    write_probation st

  unfoldable pub begin_finalize : ℕ → Action (Unit {0})
  unfolding load save write_probation
  begin_finalize pid = do
    st ← load faults
    let st' : State = record st {
      finalizing = true;
      finalizer_pid = pid;
      finalize_err = [];
      finalized_at = 0;
    }
    save faults st'
    write_probation st'

  -- The failure is the finalizer's message; `none` is a nil error.
  unfoldable pub finalize_outcome : ℕ → Option Text → Action (Unit {0})
  unfolding load save write_probation drop_probation
  finalize_outcome now failure = do
    st ← load faults
    let st' : State = record st {
      finalizing = false;
      finalized_at = now;
      finalize_err = elim failure [ none ↦ [] | some msg ↦ msg ];
    }
    save faults st'
    elim failure [ none ↦ write_probation st' | some msg ↦ drop_probation faults ]

  -- A file that cannot be read has no starts; only the last ones count.
  unfoldable pub external_starts : Disk → List ℕ
  unfolding start_times
  external_starts d =
      if faults Op.read_starts
      then []
      else keep_last max_starts_tracked (start_times (file_lines d.starts_file))

  -- A state that cannot be read denies nothing.
  known_state : Disk → State
  known_state d = elim (load faults d).0 [ ok st ↦ st | err e ↦ no_state ]

  unfoldable pub denied : Disk → List Text
  unfolding known_state load add_all
  denied d = keep_last max_denied_tracked (
      add_all (add_all [] (known_state d).denied)
        (if faults Op.read_denied then [] else file_lines d.denied_file))

  unfoldable pub is_denied : Text → Disk → Bool
  unfolding denied
  is_denied version d = if is_empty version then false else member version (denied d)

  -- The guard's list grows by a line.
  unfoldable pub deny : Text → Action (Unit {0})
  deny version =
      let v = trim_space version in
      if is_empty v then pure tt else do
        attempt faults Op.mkdir (λ d. d)
        attempt faults Op.open_denied (λ d. d)
        attempt faults Op.append_denied (λ d. record d {
          denied_file =
              some (elim d.denied_file [ none ↦ v ++ 10 ∷ [] | some raw ↦ raw ++ (v ++ 10 ∷ []) ]);
        })

  unfoldable pub record_start : ℕ → Action State
  unfolding load save pending
  record_start now = do
    st ← load faults
    let st' : State = record st { starts = keep_last max_starts_tracked (st.starts ++ now ∷ []) }
    if not (pending st) then pure st else do save faults st'; pure st'

  unfoldable pub mark_healthy : ℕ → Bool → Action (Unit {0})
  unfolding load save pending drop_probation drop_starts
  mark_healthy now unproven = do
    st ← load faults
    let marker : Marker = record {
      version = st.pending_version;
      healthy_at = now;
      unproven = unproven;
    }
    let st' : State = record st {
      healthy = true;
      healthy_at = now;
      unproven = unproven;
      starts = [];
    }
    if st.finalizing then fail (finalize_pending st.pending_version) else do
      attempt faults Op.mkdir (λ d. d)
      attempt faults Op.write_marker (λ d. record d { marker = some marker })
      if not (pending st)
          then pure tt
          else do save faults st'; drop_probation faults; drop_starts faults

  unfoldable pub finish_rollback : State → Action (Unit {0})
  unfolding save drop_probation drop_starts
  finish_rollback st = do save faults st; drop_probation faults; drop_starts faults

  -- The state that a rollback leaves.
  abbrev pub rolled_back_state : State → State
  rolled_back_state st = record st {
    rolled_back = true;
    healthy = false;
    pending_version = [];
    starts = [];
    denied = append_denied st.denied st.pending_version;
  }

  -- `os.Stat` fails on a missing file; another failure of it than that is a fault. The guard is taken to
  -- have acted only where the file is known to be missing.
  unfoldable pub reconcile_guard_rollback : Action Bool
  unfolding load pending is_denied finish_rollback
  reconcile_guard_rollback = do
    st ← load faults
    if not (pending st) || st.rolled_back then pure false else λ d.
        if faults Op.stat_probation || (elim d.probation_file [ none ↦ false | some p ↦ true ])
        then pure false d
        else if not (is_denied st.pending_version d)
        then pure false d
        else (do finish_rollback (rolled_back_state st); pure true) d

  -- RestoreBackup of agent/internal/update/swap.go, on the one target that the disk has. A failed chmod
  -- comes after the rename.
  unfoldable pub restore_backup : Action (Unit {0})
  restore_backup d = elim d.backup_bin [
    | none ↦ (err no_backup, d)
    | some old ↦
        if faults Op.stat_backup
        then (err no_backup, d)
        else (do
          attempt faults Op.rename_backup
              (λ d. record d { backup_bin = none; target_bin = some old })
          attempt faults Op.chmod_target (λ d. d))
            d
  ]
