-- ===== src/Scripts/Job.antt =====
-- The job and its result, agent/internal/scripts/runner.go, with the decisions that touch no process.
pub mod Deadline
use everwas.Base.{
  ◌+◌, ℕ, ◌*◌, Bool, true, false, Option, none, some, List, [], ◌∷◌, ◌==◌, if◌then◌else◌,
}
use everwas.Base.Int.{ℤ, pos, negsuc, leb_ℤ, ltb_ℤ, seconds, second}
use everwas.Base.Text.{Text, codes}

-- The environment that the server names is a list of pairs.
pub record JobSpec : Type 0 where
  pub job_id : Text
  pub kind : Text
  pub shell : Text
  pub body : Text
  pub timeout_s : ℤ
  pub env : List (Text × Text)
  pub requested_by : Text
  pub entry_id : Text

-- The status of a result is a string, also a reason to kill a job.
pub data Status : Type 0 where
  succeeded failed timeout cancelled : Status

-- `failures` is the map `Failed`.
pub record Result : Type 0 where
  pub status : Status
  pub exit_code : ℤ
  pub duration_ms : ℕ
  pub truncated : Bool
  pub installed : List Text
  pub failures : List (Text × Text)
  pub reboot_required : Bool
  pub entry_id : Text
  pub updated_to : Text
  pub finalizing : Bool

-- `Result{Status: status, ExitCode: exit_code}`.
abbrev pub bare : Status → ℤ → Result
bare status exit_code = record {
  status = status;
  exit_code = exit_code;
  duration_ms = 0;
  truncated = false;
  installed = [];
  failures = [];
  reboot_required = false;
  entry_id = [];
  updated_to = [];
  finalizing = false;
}

abbrev pub minus_one : ℤ
minus_one = negsuc 0

abbrev pub default_timeout : ℤ
default_timeout = pos (300 * second)

abbrev pub max_timeout : ℤ
max_timeout = pos (86400 * second)

unfoldable pub job_timeout : ℤ → ℤ
job_timeout sec =
    if leb_ℤ sec (pos 0)
    then default_timeout
    else let d = seconds sec in if ltb_ℤ d max_timeout then d else max_timeout

-- What `cmd.Wait` returns: nil, an exit status, or another error.
pub data WaitError : Type 0 where
  no_error : WaitError
  exit_error : ℤ → WaitError
  other_error : WaitError

unfoldable pub exit_of : WaitError → ℤ
exit_of no_error = pos 0
exit_of (exit_error code) = code
exit_of other_error = minus_one

unfoldable pub is_zero : ℤ → Bool
is_zero (pos n) = n == 0
is_zero (negsuc n) = false

-- The reason is `none` where it is the empty string.
unfoldable pub result : WaitError → Option Status → Result
unfolding exit_of is_zero
result e none = if is_zero (exit_of e) then bare succeeded (pos 0) else bare failed (exit_of e)
result e (some reason) = bare reason (if is_zero (exit_of e) then minus_one else exit_of e)

-- `reasonBox`: the box after `set`, and whether it was empty.
unfoldable pub set_reason : Status → Option Status → Option Status × Bool
set_reason reason none = (some reason, true)
set_reason reason (some first) = (some first, false)

-- The kills of a job in the order in which they ask, each by its reason: what the box holds, and how often
-- the process group is killed.
unfoldable pub set_reasons : List Status → Option Status → Option Status × ℕ
unfolding set_reason
set_reasons [] box = (box, 0)
set_reasons (reason ∷ reasons) box =
    let (box', first) = set_reason reason box in
    let (box'', kills) = set_reasons reasons box' in (box'', (if first then 1 else 0) + kills)
