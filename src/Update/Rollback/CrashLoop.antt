-- ===== src/Update/Rollback/CrashLoop.antt =====
-- The starts of a build on probation, agent/internal/update/rollback.go.
use everwas.Base.{
  ℕ, ◌+◌, ◌≤◌, Bool, true, false, ◌≡◌, refl, some, none, arith, [], ◌∷◌, List, length,
}
use everwas.Base.Text.{Text}
use everwas.Update.State.{State, pending, count_starts, should_rollback, crash_window, is_empty}
use everwas.Update.Disk.{Disk, Op, load, save, drop_probation, drop_starts, drop_marker}
use everwas.Update.Tracker.{
  record_start, reconcile_guard_rollback, restore_backup, rolled_back_state, finish_rollback, deny,
  begin_update, write_probation, external_starts, start_times,
}
use everwas.Update.Rollback.{
  no_state, after_restore, after_start, after_reconcile, Checked, checked, check_and_rollback,
  count_and_decide, restore_and_record, record_rollback,
}

pub count_starts-length : (starts : List ℕ) (now : ℕ) → count_starts starts now ≤ length starts
unfolding count_starts
count_starts-length [] now = ground arith
count_starts-length (s ∷ starts) now = ground (arith, count_starts-length starts now)

pub count_starts-window :
    (s t u : ℕ) → s ≤ t → t ≤ u → u ≤ s + crash_window → count_starts (s ∷ t ∷ u ∷ []) u ≡ 3
unfolding count_starts
count_starts-window s t u st tu w = ground arith

abbrev works : Op → Bool
works op = false

-- The disk of a build on probation, with the state `st` but for the starts.
record OnProbation (st : State) (old : Text) (starts : List ℕ) (d : Disk) : Type 0 where
  pub file : d.state_file ≡ some (some (record st { starts = starts }))
  pub guarded : d.probation_file ≡ none → ⊥
  pub no_guard_starts : d.starts_file ≡ none
  pub spare : d.backup_bin ≡ some old

-- What a state is for its starts to count.
record Counts (st : State) : Type 0 where
  pub version : is_empty st.pending_version ≡ false
  pub target_path : is_empty st.target ≡ false
  pub backup_path : is_empty st.backup ≡ false
  pub not_healthy : st.healthy ≡ false
  pub not_rolled_back : st.rolled_back ≡ false

first_start :
    (now : ℕ) (st : State) (old : Text) (d : Disk)
    → Counts st
    → OnProbation st old [] d
    → ((check_and_rollback works now d).0 ≡ checked false none)
      × OnProbation st old (now ∷ []) (check_and_rollback works now d).1
unfolding check_and_rollback after_reconcile after_start after_restore reconcile_guard_rollback
    count_and_decide should_rollback record_start load save external_starts start_times pending
    count_starts
first_start now st old d c o = ground (arith, c.version, c.not_healthy, o.file)

second_start :
    (s now : ℕ) (st : State) (old : Text) (d : Disk)
    → Counts st
    → OnProbation st old (s ∷ []) d
    → ((check_and_rollback works now d).0 ≡ checked false none)
      × OnProbation st old (s ∷ now ∷ []) (check_and_rollback works now d).1
unfolding check_and_rollback after_reconcile after_start after_restore reconcile_guard_rollback
    count_and_decide should_rollback record_start load save external_starts start_times pending
    count_starts
second_start s now st old d c o = ground (arith, c.version, c.not_healthy, o.file)

third_start :
    (s t now : ℕ) (st : State) (old : Text) (d : Disk)
    → Counts st
    → OnProbation st old (s ∷ t ∷ []) d
    → s ≤ t
    → t ≤ now
    → now ≤ s + crash_window
    → let d' = (check_and_rollback works now d).1 in
      ((check_and_rollback works now d).0 ≡ checked true none)
      × (d'.state_file ≡ some (some (rolled_back_state works st)))
      × (d'.target_bin ≡ some old)
      × (d'.backup_bin ≡ none)
      × (d'.probation_file ≡ none)
      × (d'.starts_file ≡ none)
unfolding check_and_rollback after_reconcile after_start after_restore reconcile_guard_rollback
    count_and_decide should_rollback record_start load save external_starts start_times pending
    restore_and_record restore_backup record_rollback deny finish_rollback drop_probation
    drop_starts
third_start s t now st old d c o st_le tn w =
    ground (arith, c.version, c.not_healthy, o.file, count_starts-window s t now st_le tn w)

-- The state that BeginUpdate saves.
abbrev pub begun : ℕ → Text → Text → Text → Text → List Text → State
begun now v prev target backup denied = record no_state {
  pending_version = v;
  previous_version = prev;
  target = target;
  backup = backup;
  swapped_at = now;
  denied = denied;
}

begin_update-OnProbation :
    (now : ℕ) (v prev target backup old : Text) (prior : State) (d : Disk)
    → d.state_file ≡ some (some prior)
    → d.backup_bin ≡ some old
    → OnProbation
        (begun now v prev target backup prior.denied)
        old
        []
        (begin_update works now v prev target backup d).1
unfolding begin_update load save write_probation drop_marker drop_starts
begin_update-OnProbation now v prev target backup old prior d f e = ground arith

-- The disks after BeginUpdate and after each of three starts.
abbrev pub begun_disk : ℕ → Text → Text → Text → Text → Disk → Disk
begun_disk now v prev target backup d = (begin_update works now v prev target backup d).1

abbrev pub start : ℕ → Disk → Checked × Disk
start = check_and_rollback works

-- A crash loop, where no call fails and the guard counts no start: an update is recorded, with a version and
-- paths that are not empty and a spare binary on the disk, and the build is started three times within the
-- crash window. The first two starts go on; the third is told to exit, the spare binary is back at the
-- target, and the state on the disk is rolled back, has no pending version and no starts, and lists the
-- version as denied beside those listed before.
pub crash_loop :
    (now s t u : ℕ) (v prev target backup old : Text) (prior : State) (d : Disk)
    → d.state_file ≡ some (some prior)
    → d.backup_bin ≡ some old
    → is_empty v ≡ false
    → is_empty target ≡ false
    → is_empty backup ≡ false
    → s ≤ t
    → t ≤ u
    → u ≤ s + crash_window
    → let d1 = begun_disk now v prev target backup d in
      let d2 = (start s d1).1 in
      let d3 = (start t d2).1 in
      let d4 = (start u d3).1 in
      ((start s d1).0 ≡ checked false none)
      × ((start t d2).0 ≡ checked false none)
      × ((start u d3).0 ≡ checked true none)
      × (d4.state_file
          ≡ some (some (rolled_back_state works (begun now v prev target backup prior.denied))))
      × (d4.target_bin ≡ some old)
      × (d4.probation_file ≡ none)
      × (d4.starts_file ≡ none)
crash_loop now s t u v prev target backup old prior d f e sv st sb le1 le2 w =
    let c : Counts (begun now v prev target backup prior.denied) = record {
      version = sv;
      target_path = st;
      backup_path = sb;
      not_healthy = refl;
      not_rolled_back = refl;
    } in
    let o1 = begin_update-OnProbation now v prev target backup old prior d f e in
    let (r1, o2) = first_start s (begun now v prev target backup prior.denied) old _ c o1 in
    let (r2, o3) = second_start s t (begun now v prev target backup prior.denied) old _ c o2 in
    let (r3, file, bin, gone, probation, starts) =
      third_start s t u (begun now v prev target backup prior.denied) old _ c o3 le1 le2 w in
    (r1, r2, r3, file, bin, probation, starts)
