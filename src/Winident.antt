-- ===== src/Winident.antt =====
-- agent/internal/winident: who provides the 802.1X identity of a Windows machine, and whether the agent
-- leaves it alone. The reason for people is its case.
pub mod Deferral
mod Tests
use everwas.Base.{ℕ, Bool, true, false, ◌&&◌, ◌||◌, Option, none, some, ltb, if◌then◌else◌}
use everwas.Base.Text.{Text, codes, text_eq}

-- A count of certificates is not negative.
pub record Sources : Type 0 where
  pub domain_joined : Bool
  pub everwas_certs : ℕ
  pub other_client_certs : ℕ
  pub group_policy_profile : Bool

pub data Mode : Type 0 where
  mode_auto mode_always mode_never : Mode

unfoldable pub provided_by_us : Sources → Bool
provided_by_us s = ltb 0 s.everwas_certs

unfoldable pub provided_by_directory : Sources → Bool
provided_by_directory s = ltb 0 s.other_client_certs || s.group_policy_profile

-- The mode, and whether the value is an error.
unfoldable pub parse_mode : Text → Mode × Bool
parse_mode s =
    if text_eq s (codes "") || text_eq s (codes "auto")
    then (mode_auto, false)
    else if text_eq s (codes "always")
    then (mode_always, false)
    else if text_eq s (codes "never")
    then (mode_never, false)
    else (mode_auto, true)

pub data Reason : Type 0 where
  no_reason configured configured_in_use certificate_and_policy policy certificate : Reason

pub record Decision : Type 0 where
  pub defer : Bool
  pub reason : Reason
  pub warn : Bool

unfoldable pub directory_reason : Sources → Reason
directory_reason s =
    if ltb 0 s.other_client_certs && s.group_policy_profile
    then certificate_and_policy
    else if s.group_policy_profile
    then policy
    else certificate

abbrev is_never : Mode → Bool
is_never mode_never = true
is_never m = false

abbrev is_always : Mode → Bool
is_always mode_always = true
is_always m = false

-- `Decision{}`.
abbrev pub go_on : Decision
go_on = record { defer = false; reason = no_reason; warn = false }

unfoldable pub decide : Sources → Mode → Decision
unfolding provided_by_us provided_by_directory directory_reason
decide s m =
    if is_never m
    then if provided_by_us s
      then record { defer = true; reason = configured_in_use; warn = true }
      else record { defer = true; reason = configured; warn = false }
    else if provided_by_us s
    then go_on
    else if is_always m
    then go_on
    else if provided_by_directory s
    then record { defer = true; reason = directory_reason s; warn = false }
    else go_on
