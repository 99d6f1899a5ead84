-- ===== src/Shell/Module/Tests.antt =====
-- Runs of agent/internal/shell/shell.go at concrete inputs.
use everwas.Base.{true, none, List, [], ◌∷◌}
use everwas.Base.Int.{pos}
use everwas.Base.Text.{Text, codes}
use everwas.Shell.Session.{Link, exits}
use everwas.Shell.Module.{OpenSpec, Call, opens, events, closes_one}

abbrev asks : Text → OpenSpec
asks id = record { session_id = id; idle_timeout_s = pos 0 }

abbrev link : Link
link = record { now = 9; connected = true; control = true; held_back = none; fresh = none }

abbrev calls : List Call
calls =
    opens true 1 (asks (codes "a"))
    ∷ opens true 2 (asks (codes "b"))
    ∷ opens true 3 (asks (codes "a"))
    ∷ events link (exits (pos 0)) (codes "b")
    ∷ closes_one link (codes "c")
    ∷ []
