-- ===== src/Agentcore/Supervise/Refused.antt =====
-- A refused renewal in agent/internal/agentcore, under the supervisor.
use everwas.Base.{inr}
use everwas.Base.{inl}
use everwas.Base.{◌⊎◌}
use everwas.Base.{ℕ, zero, suc, ◌+◌, ◌≡◌, ◌≤◌, ◌<◌, refl, true, false, List, [], ◌∷◌, length, arith}
use everwas.Agentcore.Supervise.{
  Renewal, renewed, refused, failed, done, renew_loop, supervised_asks,
}

-- The ticks before the context ends.
abbrev pub ticks : List Renewal → ℕ
ticks [] = 0
ticks (done ∷ rs) = 0
ticks (refused ∷ rs) = suc (ticks rs)
ticks (renewed ∷ rs) = suc (ticks rs)
ticks (failed ∷ rs) = suc (ticks rs)

-- What one run of the loop leaves to ask.
renew_loop-ticks :
    (rs : List Renewal)
    → (length (renew_loop rs).rest ≤ length rs)
      × (((renew_loop rs).cancelled ≡ true) × ((renew_loop rs).asked ≡ ticks rs)
          ⊎ (((renew_loop rs).cancelled ≡ false)
              × ((renew_loop rs).asked + ticks (renew_loop rs).rest ≡ ticks rs)
              × (length (renew_loop rs).rest < length rs)))
unfolding renew_loop
renew_loop-ticks [] = (omega arith, inl (refl, refl))
renew_loop-ticks (done ∷ rs) = (omega arith, inl (refl, refl))
renew_loop-ticks (refused ∷ rs) = (omega arith, inr (refl, omega arith, omega arith))
renew_loop-ticks (renewed ∷ rs) = ground (arith, renew_loop-ticks rs)
renew_loop-ticks (failed ∷ rs) = ground (arith, renew_loop-ticks rs)

asks-ticks : (fuel : ℕ) (rs : List Renewal) → length rs < fuel → supervised_asks fuel rs ≡ ticks rs
unfolding supervised_asks
asks-ticks zero rs h = absurd (omega arith)
asks-ticks (suc fuel) rs h = elim (renew_loop-ticks rs).1 [
  | inl (c, a) ↦ rw c (omega (arith, a))
  | inr (c, a, l) ↦ rw c (omega (arith, a, asks-ticks fuel (renew_loop rs).rest (omega arith)))
]

-- Under the supervisor a refusal stops nothing: the agent asks at every tick until the context ends, as
-- often as if no answer had been a refusal.
pub refused_asks_on : (rs : List Renewal) → supervised_asks (suc (length rs)) rs ≡ ticks rs
refused_asks_on rs = asks-ticks (suc (length rs)) rs (omega arith)
