-- ===== src/Jobs/Inflight/Leak.antt =====
-- The slots of agent/internal/jobs/inflight.go that a redelivery of a finished job takes and keeps.
use everwas.Scripts.Job.{JobSpec}
use everwas.Base.{
  ◌∙◌, ◌||◌, suc, ◌<◌, true, false, ◌≡◌, refl, sym, List, [], ◌∷◌, ◌++◌, arith, Bool-cases, inl,
  inr,
}
use everwas.Base.Text.{Text, member}
use everwas.Jobs.Inflight.{
  Registry, Step, Steps, asks, takes, gives_up, rechecks, finishes, releases, stops, cancels,
  starts, nothing, then_step, is_inflight, reserve, reserve_check, reserve_recheck, take_slot,
  release, start_jobs, max_concurrent_jobs, deliver, acked,
}

-- Every slot is taken, and nothing is there to give one back.
pub record IsWedged (r : Registry) : Type 0 where
  pub all_taken : r.slots ≡ max_concurrent_jobs
  pub none_running : r.inflight ≡ []
  pub none_holding : r.holding ≡ []

-- A delivery of a job that has finished and is remembered.
pub redelivered :
    (spec : JobSpec) (r : Registry)
    → r.stopping ≡ false
    → is_inflight spec.job_id r.inflight ≡ false
    → member spec.job_id r.done ≡ true
    → r.slots < max_concurrent_jobs
    → deliver spec r ≡ (acked, record r { slots = suc r.slots })
unfolding deliver reserve reserve_check reserve_recheck take_slot
redelivered spec r s f m lt = ground (arith, s, f, m)

-- A finished job that is delivered again three times, to an agent with no job running, leaves all three
-- slots taken with no job to give one back.
pub redelivered_thrice :
    (spec : JobSpec) (r : Registry)
    → r.stopping ≡ false
    → r.inflight ≡ []
    → r.holding ≡ []
    → r.slots ≡ 0
    → member spec.job_id r.done ≡ true
    → IsWedged (deliver spec (deliver spec (deliver spec r).1).1).1
unfolding is_inflight
redelivered_thrice spec r s f h z m =
    let none : is_inflight spec.job_id r.inflight ≡ false = rw f refl in
    let one = redelivered spec r s none m (omega (arith, z)) in
    let two = redelivered spec (record r { slots = suc r.slots }) s none m (omega (arith, z)) in
    let three =
      redelivered spec (record r { slots = suc (suc r.slots) }) s none m (omega (arith, z)) in
    rw (one, two, three)
      (record { all_taken = omega (arith, z); none_running = f; none_holding = h })

not_empty : (before after : List JobSpec) (spec : JobSpec) → before ++ spec ∷ after ≡ [] → ⊥
not_empty [] after spec e = ground arith
not_empty (x ∷ before) after spec e = ground arith

none_inflight : (id : Text) (js : List JobSpec) → js ≡ [] → is_inflight id js ≡ true → ⊥
unfolding is_inflight
none_inflight id [] e h = ground arith
none_inflight id (j ∷ js) e h = ground arith

Step-IsWedged : {r s : Registry} → Step r s → IsWedged r → IsWedged s
unfolding release start_jobs
Step-IsWedged (asks spec e) w = record {
  all_taken = w.all_taken;
  none_running = w.none_running;
  none_holding = w.none_holding;
}
Step-IsWedged (takes spec before after e lt) w = absurd (omega (arith, w.all_taken))
Step-IsWedged (gives_up spec before after e) w = record {
  all_taken = w.all_taken;
  none_running = w.none_running;
  none_holding = w.none_holding;
}
Step-IsWedged (rechecks spec before after e) w =
    absurd (not_empty before after spec (sym e ∙ w.none_holding))
Step-IsWedged {r} (finishes id e) w = absurd (none_inflight id r.inflight w.none_running e)
Step-IsWedged {r} (releases id e) w = absurd (none_inflight id r.inflight w.none_running e)
Step-IsWedged stops w = record {
  all_taken = w.all_taken;
  none_running = w.none_running;
  none_holding = w.none_holding;
}
Step-IsWedged cancels w = record {
  all_taken = w.all_taken;
  none_running = w.none_running;
  none_holding = w.none_holding;
}
Step-IsWedged {r} starts w = elim (Bool-cases (r.stopping || r.base_done)) [
  | inl t ↦ rw t (record {
    all_taken = w.all_taken;
    none_running = w.none_running;
    none_holding = w.none_holding;
  })
  | inr t ↦ rw t w
]

-- An agent in that state never runs a job again, whatever is delivered and whatever the supervisor does,
-- a new start of the consumer included: in every later state all slots are taken, no job runs, and no
-- caller holds a slot.
pub Steps-IsWedged : {r s : Registry} → Steps r s → IsWedged r → IsWedged s
Steps-IsWedged nothing w = w
Steps-IsWedged (then_step before step) w = Step-IsWedged step (Steps-IsWedged before w)

-- Three redeliveries of one finished job to an idle agent are enough for it never to run a job again: they
-- are acknowledged, each keeps a slot, and in every state that the agent reaches afterwards no job runs and
-- no slot is free.
pub redelivery_wedges :
    (spec : JobSpec) (r s : Registry)
    → r.stopping ≡ false
    → r.inflight ≡ []
    → r.holding ≡ []
    → r.slots ≡ 0
    → member spec.job_id r.done ≡ true
    → Steps (deliver spec (deliver spec (deliver spec r).1).1).1 s
    → IsWedged s
redelivery_wedges spec r s a b c d e steps =
    Steps-IsWedged steps (redelivered_thrice spec r a b c d e)
