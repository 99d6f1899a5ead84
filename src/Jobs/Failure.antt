-- ===== src/Jobs/Failure.antt =====
-- An error as the job handlers of agent/internal/jobs look at it: what `errors.Is` finds in it, and its text.
use everwas.Base.{Bool}
use everwas.Base.Text.{Text}

pub record Failure : Type 0 where
  pub is_busy : Bool
  pub is_deadline : Bool
  pub is_cancelled : Bool
  pub is_already_current : Bool
  pub is_version_denied : Bool
  pub is_finalize_pending : Bool
  pub text : Text
