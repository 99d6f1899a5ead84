-- ===== src/Scripts/Running/Cancelled.antt =====
-- What a `Cancel` of agent/internal/scripts/runner.go finds and does.
use everwas.Base.{
  ℕ, zero, suc, ◌≡◌, ◌<◌, ◌≤◌, ◌+◌, ap, refl, true, false, Option, none, some, List, [], ◌∷◌, ◌++◌,
  length, length-append, Each, map, sym, ◌∙◌, Bool-cases, ◌⊎◌, inl, inr, arith, if◌then◌else◌,
}
use everwas.Base.Text.{Text, text_eq, member}
use everwas.Scripts.Job.{Status, cancelled, set_reason}
use everwas.Scripts.Running.{
  Handle, Runner, new_runner, stop, stop_at, find_running, set_running, delete_running, register,
  unregister, cancel_found, cancel, running_ids, Call, registers, unregisters, cancels, kills_by,
  call, run_calls,
}

abbrev asked : Option Status → ℕ
asked none = 0
asked (some reason) = 1

-- The process group was killed once if its box has a reason, and else not at all.
abbrev pub IsOnce : Handle → Type 0
IsOnce h = h.kills ≡ asked h.box

record IsSound (r : Runner) : Type 0 where
  once : Each IsOnce r.handles
  bound : Each (λ p. p.1 < length r.handles) r.running

abbrev pub kills_at : ℕ → List Handle → Option ℕ
kills_at i [] = none
kills_at zero (h ∷ hs) = some h.kills
kills_at (suc i) (h ∷ hs) = kills_at i hs

-- How often the job that is registered under an id was killed.
abbrev pub kills_of : Option ℕ → List Handle → Option ℕ
kills_of none hs = none
kills_of (some i) hs = kills_at i hs

set_reason-asked :
    (reason : Status) (box : Option Status) (n : ℕ)
    → n ≡ asked box
    → ((if (set_reason reason box).1 then 1 else 0) + n ≡ 1) × (asked (set_reason reason box).0 ≡ 1)
unfolding set_reason
set_reason-asked reason none n h = (omega (arith, h), refl)
set_reason-asked reason (some first) n h = (omega (arith, h), refl)

stop-IsOnce : (reason : Status) (h : Handle) → IsOnce h → IsOnce (stop reason h)
unfolding stop
stop-IsOnce reason h e =
    let (kills, one) = set_reason-asked reason h.box h.kills e in kills ∙ sym one

stop_at-IsOnce :
    (i : ℕ) (reason : Status) (hs : List Handle)
    → Each IsOnce hs
    → Each IsOnce (stop_at i reason hs)
unfolding stop_at
stop_at-IsOnce i reason [] e = tt
stop_at-IsOnce zero reason (h ∷ hs) e = (stop-IsOnce reason h e.0, e.1)
stop_at-IsOnce (suc i) reason (h ∷ hs) e = (e.0, stop_at-IsOnce i reason hs e.1)

length-stop_at :
    (i : ℕ) (reason : Status) (hs : List Handle) → length (stop_at i reason hs) ≡ length hs
unfolding stop_at
length-stop_at i reason [] = refl
length-stop_at zero reason (h ∷ hs) = refl
length-stop_at (suc i) reason (h ∷ hs) = ap suc (length-stop_at i reason hs)

stop_at-kills :
    (i : ℕ) (reason : Status) (hs : List Handle)
    → Each IsOnce hs
    → i < length hs
    → kills_at i (stop_at i reason hs) ≡ some 1
unfolding stop_at stop
stop_at-kills i reason [] e q = absurd (omega arith)
stop_at-kills zero reason (h ∷ hs) e q = ap some (set_reason-asked reason h.box h.kills e.0).0
stop_at-kills (suc i) reason (h ∷ hs) e q = stop_at-kills i reason hs e.1 (omega arith)

module _ (n : ℕ) where
  abbrev IsBelow : Text × ℕ → Type 0
  IsBelow p = p.1 < n

  set_running-IsBelow :
      (id : Text) (i : ℕ) (ps : List (Text × ℕ))
      → i < n
      → Each IsBelow ps
      → Each IsBelow (set_running id i ps)
  unfolding set_running
  set_running-IsBelow id i [] q e = (q, tt)
  set_running-IsBelow id i (p ∷ ps) q e = elim (Bool-cases (text_eq p.0 id)) [
    | inl c ↦ rw c (q, e.1)
    | inr c ↦ rw c (e.0, set_running-IsBelow id i ps q e.1)
  ]

  delete_running-IsBelow :
      (id : Text) (ps : List (Text × ℕ)) → Each IsBelow ps → Each IsBelow (delete_running id ps)
  unfolding delete_running
  delete_running-IsBelow id [] e = tt
  delete_running-IsBelow id (p ∷ ps) e = elim (Bool-cases (text_eq p.0 id)) [
    | inl c ↦ rw c e.1
    | inr c ↦ rw c (e.0, delete_running-IsBelow id ps e.1)
  ]

Each-weaken :
    (n k : ℕ) (ps : List (Text × ℕ)) → n ≤ k → Each (λ p. p.1 < n) ps → Each (λ p. p.1 < k) ps
Each-weaken n k [] q e = tt
Each-weaken n k (p ∷ ps) q e = (omega (arith, q, e.0), Each-weaken n k ps q e.1)

IsOnce-append :
    (hs : List Handle) → Each IsOnce hs → Each IsOnce (hs ++ record { box = none; kills = 0 } ∷ [])
IsOnce-append [] e = (refl, tt)
IsOnce-append (h ∷ hs) e = (e.0, IsOnce-append hs e.1)

stop_at-IsSound :
    (i : ℕ) (reason : Status) (r : Runner)
    → IsSound r
    → IsSound (record r { handles = stop_at i reason r.handles })
stop_at-IsSound i reason r s = record {
  once = stop_at-IsOnce i reason r.handles s.once;
  bound =
      Each-weaken (length r.handles) (length (stop_at i reason r.handles)) r.running
        (omega (arith, length-stop_at i reason r.handles)) s.bound;
}

cancel_found-IsSound : (o : Option ℕ) (r : Runner) → IsSound r → IsSound (cancel_found o r).1
unfolding cancel_found
cancel_found-IsSound none r s = s
cancel_found-IsSound (some i) r s = stop_at-IsSound i cancelled r s

register-IsSound : (id : Text) (r : Runner) → IsSound r → IsSound (register id r)
unfolding register
register-IsSound id r s =
    let n = length (r.handles ++ record { box = none; kills = 0 } ∷ []) in
    let grows : length r.handles < n =
      omega (arith, length-append r.handles (record { box = none; kills = 0 } ∷ [])) in
    record {
      once = IsOnce-append r.handles s.once;
      bound =
          set_running-IsBelow n id (length r.handles) r.running grows
            (Each-weaken (length r.handles) n r.running (omega (arith, grows)) s.bound);
    }

call-IsSound : (c : Call) (r : Runner) → IsSound r → IsSound (call c r)
unfolding call unregister cancel
call-IsSound (registers id) r s = register-IsSound id r s
call-IsSound (unregisters id) r s = record {
  once = s.once;
  bound = delete_running-IsBelow (length r.handles) id r.running s.bound;
}
call-IsSound (cancels id) r s = cancel_found-IsSound (find_running id r.running) r s
call-IsSound (kills_by i reason) r s = stop_at-IsSound i reason r s

run_calls-IsSound : (cs : List Call) (r : Runner) → IsSound r → IsSound (run_calls cs r)
unfolding run_calls
run_calls-IsSound [] r s = s
run_calls-IsSound (c ∷ cs) r s = run_calls-IsSound cs (call c r) (call-IsSound c r s)

-- What a lookup finds, for the listing and for the store.
abbrev Found : Text → List (Text × ℕ) → ℕ → Option ℕ → Type 0
Found id ps n none = member id (map (λ p. p.0) ps) ≡ false
Found id ps n (some i) = (member id (map (λ p. p.0) ps) ≡ true) × (i < n)

Found-skip :
    (id : Text) (p : Text × ℕ) (ps : List (Text × ℕ)) (n : ℕ) (o : Option ℕ)
    → text_eq p.0 id ≡ false
    → Found id ps n o
    → Found id (p ∷ ps) n o
unfolding member
Found-skip id p ps n none c h = rw c h
Found-skip id p ps n (some i) c h = (rw c h.0, h.1)

find_running-Found :
    (id : Text) (ps : List (Text × ℕ)) (n : ℕ)
    → Each (λ p. p.1 < n) ps
    → Found id ps n (find_running id ps)
unfolding find_running member
find_running-Found id [] n e = refl
find_running-Found id (p ∷ ps) n e = elim (Bool-cases (text_eq p.0 id)) [
  | inl c ↦ rw c (ground (arith, c), e.0)
  | inr c ↦ rw c (Found-skip id p ps n (find_running id ps) c (find_running-Found id ps n e.1))
]

-- A `Cancel` that found `o`: it finds a listed job and leaves it killed once, or changes nothing.
abbrev Cancels : Text → Runner → Option ℕ → Type 0
Cancels id r o =
    let (found, r') = cancel_found o r in
    (Each IsOnce r'.handles)
    × (((found ≡ true)
          × (member id (running_ids r) ≡ true)
          × (kills_of (find_running id r'.running) r'.handles ≡ some 1))
        ⊎ ((found ≡ false) × (member id (running_ids r) ≡ false) × (r' ≡ r)))

Found-Cancels :
    (id : Text) (r : Runner) (o : Option ℕ)
    → IsSound r
    → find_running id r.running ≡ o
    → Found id r.running (length r.handles) o
    → Cancels id r o
unfolding cancel_found running_ids
Found-Cancels id r none s e h = (s.once, inr (refl, h, refl))
Found-Cancels id r (some i) s e h = (
  stop_at-IsOnce i cancelled r.handles s.once,
  inl (
    refl,
    h.0,
    ap (λ o. kills_of o (stop_at i cancelled r.handles)) e
        ∙ stop_at-kills i cancelled r.handles s.once h.1,
  ),
)

-- Whatever is registered, unregistered, cancelled and killed by the jobs, in any order, each process group
-- is killed once if its job was given a reason, and else never, also after one more Cancel; and that finds
-- its job exactly if Running lists it, and leaves the job killed once, or else changes nothing.
pub cancel_kills :
    (cs : List Call) (id : Text)
    → let r = run_calls cs new_runner in
      let (found, r') = cancel id r in
      (Each IsOnce r'.handles)
      × (((found ≡ true)
            × (member id (running_ids r) ≡ true)
            × (kills_of (find_running id r'.running) r'.handles ≡ some 1))
          ⊎ ((found ≡ false) × (member id (running_ids r) ≡ false) × (r' ≡ r)))
unfolding cancel
cancel_kills cs id =
    let r = run_calls cs new_runner in
    let s = run_calls-IsSound cs new_runner (record { once = tt; bound = tt }) in
    Found-Cancels id r (find_running id r.running) s refl
      (find_running-Found id r.running (length r.handles) s.bound)
