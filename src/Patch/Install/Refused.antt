-- ===== src/Patch/Install/Refused.antt =====
-- Which ids of agent/internal/patch/self.go reach the plan of apt.
use everwas.Base.{◌≡◌, ℕ, true, false, Option, none, is_some, [], Each, ◌⊎◌}
use everwas.Base.Text.{Text}
use everwas.Patch.Plan.{AptPlan}
use everwas.Patch.Plan.Safe.{Answered}
use everwas.Patch.Install.{is_self_package, check_install_deadline, InstallError}

abbrev IsForeign : Text → Type 0
IsForeign id = is_self_package id ≡ false

-- What is promised of a selection: no spec names the agent's own package, a short deadline has no specs, and
-- without an error `x` has an answer.
abbrev pub IsSelected : ℕ → Option ℕ → Option InstallError × AptPlan → Text → Type 0
IsSelected now deadline (error, plan) x =
    Each IsForeign plan.specs
    × ((plan.specs ≡ []) ⊎ (check_install_deadline now deadline ≡ none))
    × ((is_some error ≡ true) ⊎ Answered plan.specs plan.failed x)
