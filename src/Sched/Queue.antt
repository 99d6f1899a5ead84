-- ===== src/Sched/Queue.antt =====
-- The scheduler of agent/internal/sched/sched.go, store.go and heap.go: its document, its record of fires
-- and its queue. The queue is the list of pending items; which of several at one instant `container/heap`
-- takes first is not modelled, and here it is the first of the list. The cron and the timezone parser are a
-- parameter: the `Next` of an entry, in its zone, or `none` where they refuse it.
pub mod Count
pub mod Due
pub mod Sync
mod Tests
use everwas.Base.{
  ℕ, zero, suc, ◌+◌, ◌-◌, Bool, true, false, not, ◌&&◌, ◌||◌, Option, none, some, List, [], ◌∷◌,
  ◌++◌, ltb, leb, ◌==◌, if◌then◌else◌,
}
use everwas.Base.Int.{ℤ, pos, leb_ℤ, time_sub, time_add, unix, unix_time}
use everwas.Base.Text.{Text, text_eq}
use everwas.Wire.Identifier.{valid_identifier}
use everwas.Sched.Misfire.{
  MisfireAction, misfire_none, misfire_run, misfire_skip, decide_misfire, last_missed, jitter,
  max_scan, fire_slack, misfire_jitter_s,
}

pub record Entry : Type 0 where
  pub entry_id : Text
  pub cron : Text
  pub tz : Text
  pub kind : Text
  pub payload : Text
  pub jitter_s : ℤ
  pub misfire_grace_s : ℤ
  pub enabled : Bool

pub record Document : Type 0 where
  pub schedule_version : ℤ
  pub entries : List Entry

-- A `map[string]int64` is an association list in which the first pair of a key counts.
abbrev pub Fired : Type 0
Fired = List (Text × ℤ)

unfoldable pub get_fired : Fired → Text → Option ℤ
get_fired [] k = none
get_fired ((key, ts) ∷ m) k = let rest = get_fired m k in if text_eq key k then some ts else rest

pub record FireItem : Type 0 where
  pub entry_id : Text
  pub base : ℕ
  pub at : ℕ

pub record Scheduler : Type 0 where
  pub agent_id : Text
  pub schedule_version : ℤ
  pub entries : List Entry
  pub last_fired : Fired
  pub pq : List FireItem

-- A run that was started, or a fire that was audited as skipped, with how many it stands for.
pub data Event : Type 0 where
  ran : Entry → ℕ → Event
  skipped : Entry → ℕ → ℕ → Event

-- The first item of least `at`.
unfoldable pub peek : List FireItem → Option FireItem
peek [] = none
peek (it ∷ q) = elim (peek q) [
  | none ↦ some it
  | some m ↦ if ltb m.at it.at then some m else some it
]

-- The items without the one that `peek` gives.
unfoldable pub pop : List FireItem → List FireItem
unfolding peek
pop [] = []
pop (it ∷ q) =
    let rest = pop q in
    elim (peek q) [ none ↦ [] | some m ↦ if ltb m.at it.at then it ∷ rest else q ]

unfoldable pub find_entry : List Entry → Text → Option Entry
find_entry [] id = none
find_entry (e ∷ es) id =
    let rest = find_entry es id in
    if text_eq e.entry_id id then if e.enabled then some e else none else rest

-- The new pair hides the ones before it.
unfoldable pub mark_fired : Text → ℕ → Scheduler → Scheduler
mark_fired id at s = record s { last_fired = (id, unix at) ∷ s.last_fired }

unfoldable pub too_late : Entry → FireItem → ℕ → Bool
unfolding decide_misfire
too_late e item now =
    if leb_ℤ (time_sub now item.at) (pos fire_slack)
    then false
    else elim (decide_misfire item.base now e.misfire_grace_s) [
      | misfire_none ↦ false
      | misfire_run ↦ false
      | misfire_skip ↦ true
    ]

module _ (schedule : Entry → Option (ℕ → ℕ)) where
  unfoldable pub item_for : Text → Entry → ℕ → Option FireItem
  unfolding jitter
  item_for agent_id e now = elim (schedule e) [
    | none ↦ none
    | some next ↦
        if next now == 0
        then none
        else some (record {
          entry_id = e.entry_id;
          base = next now;
          at = time_add (next now) (jitter agent_id e.entry_id e.jitter_s);
        })
  ]

  unfoldable pub push : Entry → ℕ → Scheduler → Scheduler
  unfolding item_for
  push e now s = elim (item_for s.agent_id e now) [
    | none ↦ s
    | some it ↦ record s { pq = it ∷ s.pq }
  ]

  -- A due item of an entry that is still in force is run or skipped, and its next fire is pushed.
  unfoldable pub handle_due : FireItem → ℕ → Scheduler → List Event × Scheduler
  unfolding find_entry too_late mark_fired push
  handle_due item now s = elim (find_entry s.entries item.entry_id) [
    | none ↦ ([], s)
    | some e ↦ (
      (if too_late e item now then skipped e item.base 1 else ran e item.base) ∷ [],
      push e now (mark_fired e.entry_id item.base s),
    )
  ]

  -- The loop, on fuel: `none` where the fuel is spent.
  unfoldable pub fire_due : ℕ → ℕ → Scheduler → Option (List Event × Scheduler)
  unfolding peek pop handle_due
  fire_due zero now s = none
  fire_due (suc fuel) now s = elim (peek s.pq) [
    | none ↦ some ([], s)
    | some item ↦
        let (events, s') = handle_due item now (record s { pq = pop s.pq }) in
        let rest = fire_due fuel now s' in
        if ltb now item.at
        then some ([], s)
        else elim rest [ none ↦ none | some (more, s'') ↦ some (events ++ more, s'') ]
  ]

  -- What one entry has missed. The burst of caught-up runs is spread.
  unfoldable pub catch_up_entry : ℕ → Entry → Scheduler → List Event × Scheduler
  unfolding decide_misfire last_missed mark_fired get_fired jitter
  catch_up_entry now e s = elim (schedule e) [
    | none ↦ ([], s)
    | some next ↦ elim (get_fired s.last_fired e.entry_id) [
      | none ↦ ([], mark_fired e.entry_id now s)
      | some ts ↦
          let (missed_at, count) = last_missed next (unix_time ts) now max_scan in
          elim (decide_misfire missed_at now e.misfire_grace_s) [
            | misfire_none ↦ ([], s)
            | misfire_run ↦ (
              [],
              record s {
                pq =
                    record {
                      entry_id = e.entry_id;
                      base = missed_at;
                      at = time_add now (jitter s.agent_id e.entry_id misfire_jitter_s);
                    }
                    ∷ s.pq;
              },
            )
            | misfire_skip ↦ (skipped e missed_at count ∷ [], mark_fired e.entry_id missed_at s)
          ]
    ]
  ]

  unfoldable pub catch_up_each : ℕ → List Entry → Scheduler → List Event × Scheduler
  unfolding catch_up_entry
  catch_up_each now [] s = ([], s)
  catch_up_each now (e ∷ es) s =
      let (events, s') = if e.enabled then catch_up_entry now e s else ([], s) in
      let (more, s'') = catch_up_each now es s' in (events ++ more, s'')

  unfoldable pub catch_up : ℕ → Scheduler → List Event × Scheduler
  unfolding catch_up_each
  catch_up now s = catch_up_each now s.entries s

  -- The items still owed: those whose fire is past.
  unfoldable pub carried : ℕ → List FireItem → List FireItem
  carried now [] = []
  carried now (it ∷ q) = let rest = carried now q in if ltb it.base now then it ∷ rest else rest

  unfoldable pub next_items : Text → ℕ → List Entry → List FireItem
  unfolding item_for
  next_items agent_id now [] = []
  next_items agent_id now (e ∷ es) =
      let rest = next_items agent_id now es in
      if not e.enabled
      then rest
      else elim (item_for agent_id e now) [ none ↦ rest | some it ↦ it ∷ rest ]

  unfoldable pub rebuild : ℕ → Scheduler → Scheduler
  unfolding carried next_items
  rebuild now s = record s { pq = next_items s.agent_id now s.entries ++ carried now s.pq }

  unfoldable pub all_usable : List Entry → Bool
  all_usable [] = true
  all_usable (e ∷ es) =
      let rest = all_usable es in
      elim (valid_identifier e.entry_id) [ none ↦ rest | some x ↦ false ]

  unfoldable pub kept_entries : List Entry → List Entry
  kept_entries [] = []
  kept_entries (e ∷ es) =
      let rest = kept_entries es in elim (schedule e) [ none ↦ rest | some next ↦ e ∷ rest ]

  unfoldable pub rejections : List Entry → List Text
  rejections [] = []
  rejections (e ∷ es) =
      let rest = rejections es in elim (schedule e) [ none ↦ e.entry_id ∷ rest | some next ↦ rest ]

  unfoldable pub carry_fired : ℕ → Fired → List Entry → Fired
  unfolding get_fired
  carry_fired now old [] = []
  carry_fired now old (e ∷ es) =
      (e.entry_id, elim (get_fired old e.entry_id) [ none ↦ unix now | some prev ↦ prev ])
      ∷ carry_fired now old es

  -- The entry ids that were rejected, or `none` where an id cannot be used and nothing changes, and the scheduler; the queue is rebuilt by the loop, on its wake.
  unfoldable pub sync : ℕ → Document → Scheduler → Option (List Text) × Scheduler
  unfolding all_usable kept_entries rejections carry_fired
  sync now doc s = if not (all_usable doc.entries) then (none, s) else (
    some (rejections doc.entries),
    record s {
      schedule_version = doc.schedule_version;
      entries = kept_entries doc.entries;
      last_fired = carry_fired now s.last_fired (kept_entries doc.entries);
    },
  )
