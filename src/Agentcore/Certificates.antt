-- ===== src/Agentcore/Certificates.antt =====
-- agent/internal/agentcore/agentcore.go: netcertLoop. What the callbacks are told is a list, in order.
pub mod Warnings
use everwas.Base.{◌*◌}
use everwas.Base.{
  ℕ, min, Bool, true, false, ◌||◌, Option, none, some, List, [], ◌∷◌, ◌++◌, if◌then◌else◌,
}
use everwas.Base.Int.{second}
use everwas.Base.Text.{Text}
use everwas.Netcert.Phase.{Material, Phase, fresh, due, urgent, expired, phase_at}
use everwas.Netcert.Renewal.{EnsureError, not_configured, canceled, other_error}

abbrev pub netcert_check_every : ℕ
netcert_check_every = 43200 * second

abbrev pub netcert_urgent_every : ℕ
netcert_urgent_every = 3600 * second

-- `device` is the number of the device's renewal offset, and the two flags are whether the callbacks are set.
pub record NetcertConfig : Type 0 where
  pub device : ℕ
  pub every : ℕ
  pub urgent_every : ℕ
  pub warns : Bool
  pub observes : Bool

pub data Told : Type 0 where
  observed : Option Material → Told
  warned_user : Phase → Option ℕ → Told
  logged_unconfigured logged_urgent logged_retry : Told

-- A check: the clock, what `ensure` returned, and its error.
pub record Check : Type 0 where
  pub now : ℕ
  pub held : Option Material
  pub error : Option EnsureError

abbrev pub is_late : Phase → Bool
is_late fresh = false
is_late due = false
is_late urgent = true
is_late expired = true

abbrev pub expiry : Option Material → Option ℕ
expiry none = none
expiry (some m) = some m.not_after

-- The wait until the next check, where the phase decides.
abbrev pub wait_for : NetcertConfig → Phase → ℕ
wait_for c p = if is_late p then min c.every c.urgent_every else c.every

-- The switch on the error: what is told, the wait, and whether an unconfigured server has been reported.
unfoldable pub judge :
    NetcertConfig → Phase → Option ℕ → Bool → Option EnsureError → List Told × ℕ × Bool
judge c p expires reported none = ([], wait_for c p, reported)
judge c p expires reported (some not_configured) =
    (if reported then [] else logged_unconfigured ∷ [], c.every, true)
judge c p expires reported (some canceled) = ([], c.every, reported)
judge c p expires reported (some other_error) = (
  if is_late p
      then logged_urgent ∷ (if c.warns then warned_user p expires ∷ [] else [])
      else logged_retry ∷ [],
  wait_for c p,
  reported,
)

unfoldable pub attempt : NetcertConfig → Bool → Check → List Told × ℕ × Bool
unfolding judge
attempt c reported k =
    let (told, wait, reported') =
      judge c (phase_at c.device k.now k.held) (expiry k.held) reported k.error in
    ((if c.observes then observed k.held ∷ [] else []) ++ told, wait, reported')

-- All checks until the context ends, with the waits after them.
unfoldable pub checks : NetcertConfig → Bool → List Check → List Told × List ℕ
unfolding attempt
checks c reported [] = ([], [])
checks c reported (k ∷ ks) =
    let (told, wait, reported') = attempt c reported k in
    let (later, waits) = checks c reported' ks in (told ++ later, wait ∷ waits)
