-- ===== src/Shell/Module/Live.antt =====
-- Which sessions of agent/internal/shell/shell.go live at the same time.
use everwas.Base.{◌≤◌, ◌≡◌, true, false, none, List, [], ◌∷◌, length, Each}
use everwas.Base.Text.{Text}
use everwas.Wire.Identifier.{valid_identifier}
use everwas.Shell.Session.{Session}
use everwas.Shell.Module.{Module, has_session, max_sessions}

-- No two have one id.
abbrev pub Distinct : List Session → Type 0
Distinct [] = Unit {0}
Distinct (s ∷ ss) = (has_session s.id ss ≡ false) × Distinct ss

abbrev pub IsValid : Session → Type 0
IsValid s = (valid_identifier s.id ≡ none) × (s.closing ≡ false)

-- At most five sessions, with different and valid ids, none of them closing, and none after the shutdown.
pub record IsLive (m : Module) : Type 0 where
  pub limit : m.limit ≡ max_sessions
  pub bound : length m.sessions ≤ max_sessions
  pub distinct : Distinct m.sessions
  pub valid : Each IsValid m.sessions
  pub ended : m.closed ≡ true → m.sessions ≡ []
