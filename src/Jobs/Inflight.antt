-- ===== src/Jobs/Inflight.antt =====
-- agent/internal/jobs/inflight.go and the delivery of consumer.go: the registry of running jobs. A call of
-- `reserve` waits for a slot between its two critical sections, so it is three steps here, and the callers
-- between them are part of the state.
pub mod Bounds
pub mod Leak
mod Tests
use everwas.Base.{
  ◌<◌, ℕ, zero, suc, ◌+◌, ◌-◌, Bool, true, false, not, ◌||◌, Option, none, some, List, [], ◌∷◌,
  ◌++◌, ltb, leb, if◌then◌else◌, length, drop, ◌≡◌,
}
use everwas.Base.Text.{Text, text_eq, member}
use everwas.Scripts.Job.{JobSpec}
use everwas.Scripts.Running.{Runner, cancel}

abbrev pub max_concurrent_jobs : ℕ
max_concurrent_jobs = 3

abbrev pub recently_done_cap : ℕ
recently_done_cap = 1024

-- `slots` is the number of slots taken, `done` the keys of the map, and `base_done` whether the context of
-- the jobs is cancelled. `waiting` wait for a slot; `holding` have one and have not looked again.
pub record Registry : Type 0 where
  pub inflight : List JobSpec
  pub slots : ℕ
  pub stopping : Bool
  pub base_done : Bool
  pub done : List Text
  pub done_order : List Text
  pub waiting : List JobSpec
  pub holding : List JobSpec

abbrev pub new_registry : Registry
new_registry = record {
  inflight = [];
  slots = 0;
  stopping = false;
  base_done = false;
  done = [];
  done_order = [];
  waiting = [];
  holding = [];
}

pub data Refusal : Type 0 where
  job_running job_done agent_stopping : Refusal

unfoldable pub is_inflight : Text → List JobSpec → Bool
is_inflight id [] = false
is_inflight id (j ∷ js) = let rest = is_inflight id js in if text_eq j.job_id id then true else rest

-- `delete(m.inflight, jobID)`.
unfoldable pub delete_inflight : Text → List JobSpec → List JobSpec
delete_inflight id [] = []
delete_inflight id (j ∷ js) =
    let rest = delete_inflight id js in if text_eq j.job_id id then rest else j ∷ rest

-- The first critical section of `reserve`.
unfoldable pub reserve_check : JobSpec → Registry → Option Refusal
unfolding is_inflight
reserve_check spec r =
    if r.stopping
    then some agent_stopping
    else if is_inflight spec.job_id r.inflight
    then some job_running
    else none

-- The channel of slots: `none` where the sender waits.
unfoldable pub take_slot : Registry → Option Registry
take_slot r =
    if ltb r.slots max_concurrent_jobs then some (record r { slots = suc r.slots }) else none

-- The second critical section.
unfoldable pub reserve_recheck : JobSpec → Registry → Option Refusal × Registry
unfolding is_inflight
reserve_recheck spec r =
    if r.stopping
    then (some agent_stopping, record r { slots = r.slots - 1 })
    else if is_inflight spec.job_id r.inflight
    then (some job_running, record r { slots = r.slots - 1 })
    else if member spec.job_id r.done
    then (some job_done, r)
    else (none, record r { inflight = spec ∷ r.inflight })

-- A call that nothing comes between; `none` where it waits.
unfoldable pub reserve : JobSpec → Registry → Option (Option Refusal × Registry)
unfolding reserve_check take_slot reserve_recheck
reserve spec r = elim (reserve_check spec r) [
  | some e ↦ some (some e, r)
  | none ↦ elim (take_slot r) [ none ↦ none | some r' ↦ some (reserve_recheck spec r') ]
]

-- The function that `reserve` returns, which runs once.
unfoldable pub release : Text → Registry → Registry
unfolding delete_inflight
release id r = record r { inflight = delete_inflight id r.inflight; slots = r.slots - 1 }

unfoldable pub delete_key : Text → List Text → List Text
delete_key id [] = []
delete_key id (k ∷ ks) = let rest = delete_key id ks in if text_eq k id then rest else k ∷ rest

-- The loop that forgets the oldest, by the length of the order.
unfoldable pub forget : ℕ → Registry → Registry
unfolding delete_key
forget zero r = r
forget (suc over) r = elim r.done_order [
  | [] ↦ r
  | id ∷ order ↦ forget over (record r { done = delete_key id r.done; done_order = order })
]

unfoldable pub mark_done : Text → Registry → Registry
unfolding forget
mark_done id r =
    let r' : Registry = record r { done = id ∷ r.done; done_order = r.done_order ++ id ∷ [] } in
    if member id r.done then r else forget (length r'.done_order - recently_done_cap) r'

abbrev pub already_done : Text → Registry → Bool
already_done id r = member id r.done

-- `CancelJob` where a script runner is set, and where it is not. The context of the job is cancelled too,
-- which the run sees as one more call of its `kill`.
unfoldable pub cancel_job : Text → Registry → Option Runner → Bool × Option Runner
unfolding cancel
cancel_job id r none = (is_inflight id r.inflight, none)
cancel_job id r (some scripts) =
    let (found, scripts') = cancel id scripts in
    (if found then true else is_inflight id r.inflight, some scripts')

unfoldable pub start_jobs : Registry → Registry
start_jobs r =
    if r.stopping || r.base_done then record r { stopping = false; base_done = false } else r

-- What is done with a delivery: `handleJob` after the message is decoded.
pub data Delivery : Type 0 where
  acked nacked started waits : Delivery

unfoldable pub deliver : JobSpec → Registry → Delivery × Registry
unfolding reserve
deliver spec r = elim (reserve spec r) [
  | none ↦ (waits, record r { waiting = spec ∷ r.waiting })
  | some o ↦ elim o.0 [
    | none ↦ (started, o.1)
    | some e ↦ elim e [
      | job_done ↦ (acked, o.1)
      | job_running ↦ (acked, o.1)
      | agent_stopping ↦ (nacked, o.1)
    ]
  ]
]

-- The steps of all callers and jobs, one critical section or channel operation at a time. A caller that
-- waits gives up when the context that it began with is cancelled, which may have been replaced since: so
-- any of them may.
pub data Step : Registry → Registry → Type 0 where
  asks :
      {r : Registry}
      → (spec : JobSpec) → reserve_check spec r ≡ none
      → Step r (record r { waiting = spec ∷ r.waiting })
  takes :
      {r : Registry}
      → (spec : JobSpec) (before after : List JobSpec) → r.waiting ≡ before ++ spec ∷ after
      → r.slots < max_concurrent_jobs
      → Step r
          (record r { slots = suc r.slots; waiting = before ++ after; holding = spec ∷ r.holding })
  gives_up :
      {r : Registry}
      → (spec : JobSpec) (before after : List JobSpec) → r.waiting ≡ before ++ spec ∷ after
      → Step r (record r { waiting = before ++ after })
  rechecks :
      {r : Registry}
      → (spec : JobSpec) (before after : List JobSpec) → r.holding ≡ before ++ spec ∷ after
      → Step r (reserve_recheck spec (record r { holding = before ++ after })).1
  finishes :
      {r : Registry} → (id : Text) → is_inflight id r.inflight ≡ true → Step r (mark_done id r)
  releases : {r : Registry} → (id : Text) → is_inflight id r.inflight ≡ true → Step r (release id r)
  stops : {r : Registry} → Step r (record r { stopping = true })
  cancels : {r : Registry} → Step r (record r { base_done = true })
  starts : {r : Registry} → Step r (start_jobs r)

pub data Steps : Registry → Registry → Type 0 where
  nothing : {r : Registry} → Steps r r
  then_step : {r s t : Registry} → Steps r s → Step s t → Steps r t
