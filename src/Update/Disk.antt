-- ===== src/Update/Disk.antt =====
-- The files under the state directory and the two binaries that agent/internal/update works on, the
-- operations of the file system that it makes on them, and their failures.
use everwas.Base.{ℕ, Bool, Option, none, some, if◌then◌else◌}
use everwas.Base.Text.{Text}
use everwas.Update.State.{State, no_state}

-- The plain text view for the external guard, by its keys.
pub record Probation : Type 0 where
  pub version : Text
  pub previous : Text
  pub target : Text
  pub backup : Text
  pub swapped_at : ℕ
  pub finalizing : Bool

pub record Marker : Type 0 where
  pub version : Text
  pub healthy_at : ℕ
  pub unproven : Bool

-- A state file that does not parse is `some none`. A binary is its content: the one that runs, the spare
-- one, the copy beside the target, and the download.
pub record Disk : Type 0 where
  pub state_file : Option (Option State)
  pub marker : Option Marker
  pub probation_file : Option Probation
  pub starts_file : Option Text
  pub denied_file : Option Text
  pub target_bin : Option Text
  pub backup_bin : Option Text
  pub new_bin : Option Text
  pub staged_bin : Option Text

-- The calls of the operating system that may fail for a reason other than a missing file.
pub data Op : Type 0 where
  read_state mkdir encode_state write_state rename_state : Op
  remove_state remove_marker remove_probation remove_starts : Op
  write_probation rename_probation stat_probation : Op
  read_starts read_denied open_denied append_denied : Op
  write_marker stat_backup rename_backup chmod_target : Op
  copy_staged remove_backup rename_target rename_new undo_rename remove_new : Op
  read_staged remove_staged : Op

pub data Error : Type 0 where
  state_error : Op → Error
  finalize_pending : Text → Error
  no_backup : Error
  swap_error : Op → Error

pub data Result (A : Type 0) : Type 0 where
  ok : A → Result A
  err : Error → Result A

-- What was written before an error stays written.
abbrev pub Action : Type 0 → Type 0
Action A = Disk → Result A × Disk

abbrev pub continue : {A B : Type 0} → Result A → (A → Action B) → Action B
continue (ok a) f d = f a d
continue (err e) f d = (err e, d)

infixl 5 ◌>>=◌ ◌>>◌
abbrev pub ◌>>=◌ : {A B : Type 0} → Action A → (A → Action B) → Action B
◌>>=◌ m f d = let (r, d') = m d in continue r f d'

abbrev pub ◌>>◌ : {B : Type 0} → Action (Unit {0}) → Action B → Action B
m >> k = m >>= λ _. k

abbrev pub pure : {A : Type 0} → A → Action A
pure a d = (ok a, d)

abbrev pub fail : {A : Type 0} → Error → Action A
fail e d = (err e, d)

-- `_ = f()`.
abbrev pub ignore : Action (Unit {0}) → Action (Unit {0})
ignore m d = let (r, d') = m d in (ok tt, d')

abbrev handled : Result (Unit {0}) → Action (Unit {0}) → Action (Unit {0})
handled (ok u) k d = (ok u, d)
handled (err e) k d = k d

-- `if err := f(); err != nil { return k() }`.
abbrev pub on_error : Action (Unit {0}) → Action (Unit {0}) → Action (Unit {0})
on_error m k d = let (r, d') = m d in handled r k d'

abbrev decoded : Option (Option State) → State
decoded none = no_state
decoded (some none) = no_state
decoded (some (some st)) = st

-- Which calls fail is the environment's choice.
module _ (faults : Op → Bool) where
  abbrev pub attempt : Op → (Disk → Disk) → Action (Unit {0})
  attempt op f d = if faults op then (err (state_error op), d) else (ok tt, f d)

  unfoldable pub load : Action State
  load d =
      if faults read_state
      then (err (state_error read_state), d)
      else (ok (decoded d.state_file), d)

  -- The rename puts the whole file in place or leaves the old one.
  unfoldable pub save : State → Action (Unit {0})
  save st = do
    attempt mkdir (λ d. d)
    attempt encode_state (λ d. d)
    attempt write_state (λ d. d)
    attempt rename_state (λ d. record d { state_file = some (some st) })

  unfoldable pub drop_state : Action (Unit {0})
  drop_state = attempt remove_state (λ d. record d { state_file = none })

  unfoldable pub drop_marker : Action (Unit {0})
  drop_marker = attempt remove_marker (λ d. record d { marker = none })

  unfoldable pub drop_probation : Action (Unit {0})
  drop_probation = attempt remove_probation (λ d. record d { probation_file = none })

  unfoldable pub drop_starts : Action (Unit {0})
  drop_starts = attempt remove_starts (λ d. record d { starts_file = none })
