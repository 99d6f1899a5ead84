-- ===== src/Sched/Queue/Sync.antt =====
-- What a sync of agent/internal/sched/sched.go takes over.
use everwas.Base.{ℕ, Bool, false, ◌||◌, none, some, List, [], ◌∷◌}
use everwas.Base.Int.{ℤ, unix}
use everwas.Base.Text.{Text, text_eq}
use everwas.Sched.Queue.{Entry, Fired, get_fired}

pub has_entry : List Entry → Text → Bool
has_entry [] id = false
has_entry (e ∷ es) id = text_eq e.entry_id id || has_entry es id

abbrev pub carried_fire : ℕ → Fired → Text → ℤ
carried_fire now old id = elim (get_fired old id) [ none ↦ unix now | some prev ↦ prev ]
