-- ===== src/Update/State.antt =====
-- The data of agent/internal/update/rollback.go, and its decisions that touch no file.
-- An instant (`time.Time`) is a number of nanoseconds since the zero instant.
use everwas.Base.{
  ℕ, suc, ◌*◌, Bool, true, false, not, ◌&&◌, ◌||◌, List, [], ◌∷◌, ◌++◌, ltb, leb, ◌==◌,
  if◌then◌else◌, length, keep_last,
}
use everwas.Base.Int.{pos, leb_ℤ, time_sub, second}
use everwas.Base.Text.{Text, member, trim_space}

abbrev pub min_probation : ℕ
min_probation = 600 * second

abbrev pub max_probation : ℕ
max_probation = 86400 * second

abbrev pub probe_interval : ℕ
probe_interval = 30 * second

abbrev pub crash_window : ℕ
crash_window = 120 * second

abbrev pub crash_limit : ℕ
crash_limit = 2

abbrev pub max_starts_tracked : ℕ
max_starts_tracked = 16

abbrev pub max_denied_tracked : ℕ
max_denied_tracked = 32

pub data Status : Type 0 where
  idle probation finalizing finalize_failed rolled_back healthy unproven : Status

pub record State : Type 0 where
  pub pending_version : Text
  pub previous_version : Text
  pub target : Text
  pub backup : Text
  pub swapped_at : ℕ
  pub starts : List ℕ
  pub healthy : Bool
  pub healthy_at : ℕ
  pub rolled_back : Bool
  pub unproven : Bool
  pub denied : List Text
  pub finalizing : Bool
  pub finalizer_pid : ℕ
  pub finalize_err : Text
  pub finalized_at : ℕ

-- `State{}`.
abbrev pub no_state : State
no_state = record {
  pending_version = [];
  previous_version = [];
  target = [];
  backup = [];
  swapped_at = 0;
  starts = [];
  healthy = false;
  healthy_at = 0;
  rolled_back = false;
  unproven = false;
  denied = [];
  finalizing = false;
  finalizer_pid = 0;
  finalize_err = [];
  finalized_at = 0;
}

abbrev pub is_empty : Text → Bool
is_empty s = length s == 0

unfoldable pub pending : State → Bool
pending st = not (is_empty st.pending_version) && not st.healthy

-- `now.Sub(s)` is at least 0 where it is compared.
unfoldable pub count_starts : List ℕ → ℕ → ℕ
count_starts [] now = 0
count_starts (s ∷ starts) now =
    let n = count_starts starts now in
    if leb s now && leb_ℤ (time_sub now s) (pos crash_window) then suc n else n

unfoldable pub should_rollback : State → List ℕ → ℕ → Bool
unfolding pending count_starts
should_rollback st external now =
    if not (pending st) || (is_empty st.backup || is_empty st.target)
    then false
    else if st.rolled_back
    then false
    else let n = count_starts st.starts now in
      let e = count_starts external now in ltb crash_limit (if ltb n e then e else n)

unfoldable pub append_denied : List Text → Text → List Text
append_denied list version =
    let v = trim_space version in
    if is_empty v
    then list
    else if member v list
    then list
    else keep_last max_denied_tracked (list ++ v ∷ [])

pub record Report : Type 0 where
  pub status : Status
  pub version : Text
  pub previous : Text
  pub since : ℕ
  pub denied : List Text
  pub terminal : Bool

-- The switch of `Report`, from the state and the merged denylist; the sentence for people is left out.
unfoldable pub report_of : State → List Text → Report
unfolding pending
report_of st denied =
    let rep : Report = record {
      status = Status.idle;
      version = st.pending_version;
      previous = st.previous_version;
      since = st.swapped_at;
      denied = denied;
      terminal = true;
    } in
    if st.finalizing
    then record rep { status = Status.finalizing; terminal = false }
    else if not (is_empty st.finalize_err)
    then record rep { status = Status.finalize_failed }
    else if st.rolled_back
    then record rep { status = Status.rolled_back }
    else if pending st
    then record rep { status = Status.probation; terminal = false }
    else if st.healthy && st.unproven
    then record rep { status = Status.unproven; since = st.healthy_at }
    else if st.healthy
    then record rep { status = Status.healthy; since = st.healthy_at }
    else rep
