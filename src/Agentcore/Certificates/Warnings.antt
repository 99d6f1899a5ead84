-- ===== src/Agentcore/Certificates/Warnings.antt =====
-- What netcertLoop of agent/internal/agentcore tells whom.
use everwas.Base.{◌⊎◌}
use everwas.Base.{ℕ, suc, ◌+◌, ◌≤◌, ◌≡◌, Bool, false, none, some, List, [], ◌∷◌, if◌then◌else◌}
use everwas.Netcert.Phase.{phase_at}
use everwas.Netcert.Renewal.{not_configured, canceled, other_error}
use everwas.Agentcore.Certificates.{
  NetcertConfig, Told, observed, warned_user, logged_unconfigured, logged_urgent, logged_retry,
  Check, is_late,
}

-- How often the user was warned, and how often the log said that the server issues nothing.
abbrev pub user_warnings : List Told → ℕ
user_warnings [] = 0
user_warnings (warned_user p e ∷ ts) = suc (user_warnings ts)
user_warnings (observed m ∷ ts) = user_warnings ts
user_warnings (logged_unconfigured ∷ ts) = user_warnings ts
user_warnings (logged_urgent ∷ ts) = user_warnings ts
user_warnings (logged_retry ∷ ts) = user_warnings ts

abbrev pub unconfigured_logs : List Told → ℕ
unconfigured_logs [] = 0
unconfigured_logs (logged_unconfigured ∷ ts) = suc (unconfigured_logs ts)
unconfigured_logs (observed m ∷ ts) = unconfigured_logs ts
unconfigured_logs (warned_user p e ∷ ts) = unconfigured_logs ts
unconfigured_logs (logged_urgent ∷ ts) = unconfigured_logs ts
unconfigured_logs (logged_retry ∷ ts) = unconfigured_logs ts

-- A check that warns the user, where the callback is set: it failed for another reason than that the server
-- has no CA or the context has ended, and the material is past its urgent point.
abbrev pub is_alarming : NetcertConfig → Check → Bool
is_alarming c k = elim k.error [
  | none ↦ false
  | some not_configured ↦ false
  | some canceled ↦ false
  | some other_error ↦ if c.warns then is_late (phase_at c.device k.now k.held) else false
]

abbrev pub alarms : NetcertConfig → List Check → ℕ
alarms c [] = 0
alarms c (k ∷ ks) = (if is_alarming c k then 1 else 0) + alarms c ks

-- The wait after each alarming check is the urgent one, and none is longer than the routine one.
abbrev pub Waits : NetcertConfig → List Check → List ℕ → Type 0
Waits c [] ws = ws ≡ []
Waits c (k ∷ ks) [] = ⊥
Waits c (k ∷ ks) (w ∷ ws) =
    (w ≤ c.every) × ((is_alarming c k ≡ false) ⊎ (w ≤ c.urgent_every)) × Waits c ks ws
