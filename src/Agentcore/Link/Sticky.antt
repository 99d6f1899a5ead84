-- ===== src/Agentcore/Link/Sticky.antt =====
-- A denied subscription keeps a new build from being confirmed.
use everwas.Base.{
  ℕ, ◌≡◌, refl, Bool, true, false, not, ◌&&◌, Option, none, some, List, [], ◌∷◌, Each, Any, ◌≢◌, ap,
  inl, inr, arith, is_some,
}
use everwas.Base.Int.{time_add}
use everwas.Update.State.{State, pending}
use everwas.Update.Disk.{Disk, Op}
use everwas.Update.Watch.{
  WatchConfig, Turn, WatchEnd, confirmed, goes_on, stopped, expired, stalled, fails, watch,
  watch_start, normalized,
}
use everwas.Update.Watch.Evidence.{Shows, watch_evidence}
use everwas.Agentcore.Link.{
  AsyncError, LinkHealth, is_permission_violation, record_async_error, record_all, probe, Findings,
  Round, turns,
}

record_async_error-keeps :
    (now : ℕ) (e : Option AsyncError) (h : LinkHealth)
    → is_some h.violation ≡ true
    → is_some (record_async_error now e h).violation ≡ true
unfolding record_async_error
record_async_error-keeps now none h v = v
record_async_error-keeps now (some e) h v = ground (arith, v)

recorded :
    (now : ℕ) (e : AsyncError) (h : LinkHealth)
    → is_permission_violation e ≡ true
    → is_some (record_async_error now (some e) h).violation ≡ true
unfolding record_async_error
recorded now e h v = rw v refl

record_all-keeps :
    (now : ℕ) (es : List (Option AsyncError)) (h : LinkHealth)
    → is_some h.violation ≡ true
    → is_some (record_all now es h).violation ≡ true
unfolding record_all
record_all-keeps now [] h v = v
record_all-keeps now (e ∷ es) h v =
    record_all-keeps now es (record_async_error now e h) (record_async_error-keeps now e h v)

probe-denied :
    (f : Findings) (h : LinkHealth)
    → is_some h.violation ≡ true
    → not (is_some (probe f (some h))) ≡ false
unfolding probe
probe-denied f h v = ground (arith, v)

-- No turn proves anything.
turns-prove :
    (rs : List Round) (h : LinkHealth)
    → is_some h.violation ≡ true
    → Each (λ t. t.proves ≡ false) (turns rs h)
unfolding turns
turns-prove [] h v = tt
turns-prove (r ∷ rs) h v =
    let v' = record_all-keeps r.now r.errors h v in
    (
      probe-denied r.findings (record_all r.now r.errors h) v',
      turns-prove rs (record_all r.now r.errors h) v',
    )

no-Any :
    (has_probe : Bool) (st : State) (d : Disk) (ts : List Turn)
    → Each (λ t. t.proves ≡ false) ts
    → Any
        (λ t.
          ((has_probe && t.proves) ≡ true)
          × (d.state_file
              ≡ some (
                  some (record st {
                    healthy = true;
                    healthy_at = t.now;
                    unproven = false;
                    starts = [];
                  }))))
        ts
    → ⊥
no-Any has_probe st d [] h a = a
no-Any has_probe st d (t ∷ ts) h (inl x) = ground (arith, h.0, x.0)
no-Any has_probe st d (t ∷ ts) h (inr a) = no-Any has_probe st d ts h.1 a

is_confirmed : WatchEnd → Bool
is_confirmed goes_on = false
is_confirmed stopped = false
is_confirmed confirmed = true
is_confirmed expired = false
is_confirmed stalled = false
is_confirmed (fails e) = false

Shows-unconfirmed :
    (has_probe : Bool) (deadline : ℕ) (st : State) (d d' : Disk) (ts : List Turn) (e : WatchEnd)
    → Each (λ t. t.proves ≡ false) ts
    → Shows has_probe deadline st d ts d' e
    → is_confirmed e ≡ false
unfolding is_confirmed
Shows-unconfirmed has_probe deadline st d d' ts goes_on h s = refl
Shows-unconfirmed has_probe deadline st d d' ts stopped h s = refl
Shows-unconfirmed has_probe deadline st d d' ts confirmed h s =
    absurd (no-Any has_probe st d' ts h s)
Shows-unconfirmed has_probe deadline st d d' ts expired h s = refl
Shows-unconfirmed has_probe deadline st d d' ts stalled h s = refl
Shows-unconfirmed has_probe deadline st d d' ts (fails e) h s = refl

-- Once the link has recorded a permission violation, no watch over a pending update confirms the build,
-- whatever errors come after it, whatever the connection, the jobs module, the clock, the context and the
-- disk do.
pub denied-unconfirmed :
    (faults : Op → Bool) (st : State) (d : Disk) (c : WatchConfig) (now t : ℕ) (woken : Bool)
    (e : AsyncError) (h : LinkHealth) (rs : List Round)
    → d.state_file ≡ some (some st)
    → pending st ≡ true
    → is_permission_violation e ≡ true
    → let ts = turns rs (record_async_error t (some e) h) in
      (watch faults c now woken ts d).0 ≢ confirmed
unfolding is_confirmed
denied-unconfirmed faults st d c now t woken e h rs known waits v q =
    let ts = turns rs (record_async_error t (some e) h) in
    let seen : is_some (record_async_error t (some e) h).violation ≡ true = recorded t e h v in
    let shows = (watch_evidence faults st d known waits c now woken ts).1 in
    let no : is_confirmed (watch faults c now woken ts d).0 ≡ false =
      Shows-unconfirmed (normalized c).has_probe (time_add (watch_start now st) (normalized c).most)
        st d (watch faults c now woken ts d).1 ts (watch faults c now woken ts d).0
        (turns-prove rs (record_async_error t (some e) h) seen) shows in
    let yes : is_confirmed (watch faults c now woken ts d).0 ≡ true = ap is_confirmed q in cc
