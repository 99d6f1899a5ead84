-- ===== src/Winident/Deferral.antt =====
-- When agent/internal/winident/defer.go leaves a machine alone.
use everwas.Base.{true, false, ◌≡◌, ◌≢◌, arith, ◌<◌, ◌⊎◌, ◌↔◌}
use everwas.Winident.{
  Sources, Mode, mode_auto, mode_always, mode_never, decide, provided_by_us, provided_by_directory,
  directory_reason, no_reason,
}

-- For a machine that already has an identity from the agent, what detection finds besides does not matter:
-- unless the operator chose never, the agent goes on, whatever else is there; under never it stops, with
-- the warning. For any machine the warning comes with no other decision, a decision gives a reason exactly
-- when it defers, and in the automatic mode the agent defers exactly where a directory provides the
-- identity and the agent does not.
pub decide_lem :
    (s : Sources) (m : Mode)
    → (0 < s.everwas_certs → m ≢ mode_never → (decide s m).defer ≡ false)
      × (((decide s m).warn ≡ true) ↔ ((m ≡ mode_never) × (0 < s.everwas_certs)))
      × (((decide s m).defer ≡ false) ↔ ((decide s m).reason ≡ no_reason))
      × (((decide s mode_auto).defer ≡ true) ↔ (
          (s.everwas_certs ≡ 0) × ((0 < s.other_client_certs) ⊎ (s.group_policy_profile ≡ true))))
unfolding decide provided_by_us provided_by_directory directory_reason
decide_lem s mode_auto = ground arith
decide_lem s mode_always = ground arith
decide_lem s mode_never = ground arith
