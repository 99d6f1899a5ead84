-- ===== src/Update/Watch/Evidence.antt =====
-- What the `Watch` of agent/internal/update/rollback.go needs to end a probation.
use everwas.Base.{
  ℕ, ◌≡◌, refl, ◌⊎◌, inl, inr, Bool, true, false, ◌&&◌, some, List, [], ◌∷◌, ltb, Each, Any,
  Bool-cases, arith,
}
use everwas.Base.Int.{time_add}
use everwas.Update.State.{State, pending}
use everwas.Update.Disk.{
  Disk, Op, Error, Result, ok, err, finalize_pending, load, save, drop_probation, drop_starts,
}
use everwas.Update.Tracker.{mark_healthy}
use everwas.Update.Tracker.Frame.{KeepsBinaries, mark_healthy_lem, mark_healthy-KeepsBinaries}
use everwas.Update.Watch.{
  WatchConfig, normalized, Turn, WatchEnd, goes_on, stopped, confirmed, expired, stalled, fails,
  marked, mark, watch_turns, watch_start, watch,
}

-- The state file after the probation of `st` ended.
abbrev pub Settled : Bool → ℕ → State → Disk → Type 0
Settled unproven now st d =
    d.state_file
    ≡ some (some (record st { healthy = true; healthy_at = now; unproven = unproven; starts = [] }))

-- What the end of a watch shows, by its kind.
abbrev pub Shows : Bool → ℕ → State → Disk → List Turn → Disk → WatchEnd → Type 0
Shows has_probe deadline st d ts d' goes_on =
    (d' ≡ d) × Each (λ t. ((has_probe && t.proves) ≡ false) × (ltb t.now deadline ≡ true)) ts
Shows has_probe deadline st d ts d' stopped = d' ≡ d
Shows has_probe deadline st d ts d' confirmed =
    Any (λ t. ((has_probe && t.proves) ≡ true) × Settled false t.now st d') ts
Shows has_probe deadline st d ts d' expired =
    Any
      (λ t.
        ((has_probe && t.proves) ≡ false) × (ltb t.now deadline ≡ false) × Settled true t.now st d')
      ts
Shows has_probe deadline st d ts d' stalled = (st.finalizing ≡ true) × (d' ≡ d)
Shows has_probe deadline st d ts d' (fails e) = Unit {0}

module _ (faults : Op → Bool) (st : State) (d : Disk) (known : d.state_file ≡ some (some st))
    (waits : pending st ≡ true) where
  mark_healthy-pending :
      (now : ℕ) (unproven : Bool) (v : _) (d' : Disk)
      → mark_healthy faults now unproven d ≡ (err (finalize_pending v), d')
      → (st.finalizing ≡ true) × (d' ≡ d)
  unfolding mark_healthy load save drop_probation drop_starts
  mark_healthy-pending now unproven v d' r = ground (arith, known, r)

  module _ (has_probe : Bool) (deadline : ℕ) (t : Turn) (ts : List Turn) where
    confirmed-Shows :
        (r : Result (Unit {0})) (d' : Disk)
        → (has_probe && t.proves) ≡ true
        → mark_healthy faults t.now false d ≡ (r, d')
        → Shows has_probe deadline st d (t ∷ ts) d' (marked confirmed r)
    confirmed-Shows (ok u) d' c e =
        inl (c, (mark_healthy_lem faults t.now false st d d' known waits e).0)
    confirmed-Shows (err (finalize_pending v)) d' c e = mark_healthy-pending t.now false v d' e
    confirmed-Shows (err (Error.state_error op)) d' c e = tt
    confirmed-Shows (err Error.no_backup) d' c e = tt
    confirmed-Shows (err (Error.swap_error op)) d' c e = tt

    expired-Shows :
        (r : Result (Unit {0})) (d' : Disk)
        → (has_probe && t.proves) ≡ false
        → ltb t.now deadline ≡ false
        → mark_healthy faults t.now true d ≡ (r, d')
        → Shows has_probe deadline st d (t ∷ ts) d' (marked expired r)
    expired-Shows (ok u) d' c l e =
        inl (c, l, (mark_healthy_lem faults t.now true st d d' known waits e).0)
    expired-Shows (err (finalize_pending v)) d' c l e = mark_healthy-pending t.now true v d' e
    expired-Shows (err (Error.state_error op)) d' c l e = tt
    expired-Shows (err Error.no_backup) d' c l e = tt
    expired-Shows (err (Error.swap_error op)) d' c l e = tt

    later-Shows :
        (e : WatchEnd) (d' : Disk)
        → (has_probe && t.proves) ≡ false
        → ltb t.now deadline ≡ true
        → Shows has_probe deadline st d ts d' e
        → Shows has_probe deadline st d (t ∷ ts) d' e
    later-Shows goes_on d' c l h = (h.0, ((c, l), h.1))
    later-Shows stopped d' c l h = h
    later-Shows confirmed d' c l h = inr h
    later-Shows expired d' c l h = inr h
    later-Shows stalled d' c l h = h
    later-Shows (fails e) d' c l h = tt

  watch_turns-Shows :
      (has_probe : Bool) (deadline : ℕ) (ts : List Turn)
      → let (e, d') = watch_turns faults has_probe deadline ts d in
        KeepsBinaries d d' × Shows has_probe deadline st d ts d' e
  unfolding watch_turns mark
  watch_turns-Shows has_probe deadline [] = ((refl, refl), (refl, tt))
  watch_turns-Shows has_probe deadline (t ∷ ts) = elim (Bool-cases (has_probe && t.proves)) [
    | inl c ↦ rw c (
      mark_healthy-KeepsBinaries faults t.now false d,
      confirmed-Shows has_probe deadline t ts (mark_healthy faults t.now false d).0
          (mark_healthy faults t.now false d).1 c refl,
    )
    | inr c ↦ elim (Bool-cases (has_probe && t.ended)) [
      | inl x ↦ rw (c, x) ((refl, refl), refl)
      | inr x ↦ elim (Bool-cases (ltb t.now deadline)) [
        | inr l ↦
            rw (c, x, l)
              (
                mark_healthy-KeepsBinaries faults t.now true d,
                expired-Shows has_probe deadline t ts (mark_healthy faults t.now true d).0
                    (mark_healthy faults t.now true d).1 c l refl,
              )
        | inl l ↦ elim (Bool-cases t.ends) [
          | inl q ↦ rw (c, x, l, q) ((refl, refl), refl)
          | inr q ↦
              let rest = watch_turns-Shows has_probe deadline ts in
              let out = watch_turns faults has_probe deadline ts d in
              rw (c, x, l, q) (rest.0, later-Shows has_probe deadline t ts out.0 out.1 c l rest.1)
        ]
      ]
    ]
  ]

  load-cases : ((load faults d).0 ≡ ok st) ⊎ ((e : Error) × ((load faults d).0 ≡ err e))
  unfolding load
  load-cases = elim (Bool-cases (faults Op.read_state)) [
    | inl q ↦ rw q (inr (Error.state_error Op.read_state, refl))
    | inr q ↦ rw (q, known) (inl refl)
  ]

  -- Whatever calls fail, and however the clock, the probe and the context go, on a host with an update on
  -- probation: the watch leaves both binaries alone. It confirms the build only in a turn in which a probe
  -- that is set returned nil, and the state is then healthy as of that turn; it lets the probation expire
  -- only in a turn at or after the deadline, which is the start and the greatest probation, with no such
  -- evidence, and the state is then healthy and unproven; it stalls only while a finalizer has not reported,
  -- with every file as it was; it stops with every file as it was; and it goes on only while every turn came
  -- before the deadline, without evidence, with every file as it was.
  pub watch_evidence :
      (c : WatchConfig) (now : ℕ) (woken : Bool) (ts : List Turn)
      → let (e, d') = watch faults c now woken ts d in
        let deadline = time_add (watch_start now st) (normalized c).most in
        KeepsBinaries d d' × Shows (normalized c).has_probe deadline st d ts d' e
  unfolding watch
  watch_evidence c now woken ts = elim load-cases [
    | inr x ↦ rw x.1 ((refl, refl), tt)
    | inl x ↦
        rw (x, waits)
          (elim (Bool-cases woken) [
            | inl w ↦ rw w (
                watch_turns-Shows (normalized c).has_probe
                  (time_add (watch_start now st) (normalized c).most) ts)
            | inr w ↦ rw w ((refl, refl), refl)
          ])
  ]
