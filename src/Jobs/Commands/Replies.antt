-- ===== src/Jobs/Commands/Replies.antt =====
-- What the replies of agent/internal/jobs/commands.go say of what was done.
use everwas.Base.{
  ℕ, ◌≤◌, ◌≡◌, refl, Bool, true, false, Option, none, some, List, [], ◌∷◌, arith, ◌⊎◌,
}
use everwas.Base.Text.{Text, codes, text_eq}
use everwas.Wire.Identifier.{check_identifier}
use everwas.Scripts.Job.{JobSpec}
use everwas.Sched.Queue.{Entry}
use everwas.Jobs.Inflight.{
  Registry, max_concurrent_jobs, is_inflight, reserve, reserve_check, take_slot,
}
use everwas.Jobs.Update.{ready}
use everwas.Jobs.Commands.{
  Sent, pong, replies, Agent, Surroundings, Payloads, agent_update, update_asked, update_checked,
  update_ready, update_reserved, update_spec,
}
use everwas.Jobs.Commands.Serve.{Message, dispatch, handle_command, handle_all}

abbrev pub is_accepted : Sent → Bool
is_accepted (pong n) = true
is_accepted (replies r) = r.accepted

-- A command starts no job, or it is accepted and starts one that is in the registry; and it leaves the
-- sessions and the secret alone, or is accepted.
abbrev pub IsHonest : Agent → Bool → Agent → Type 0
IsHonest a accepted a' =
    ((a'.started ≡ a.started)
      ⊎ ((accepted ≡ true)
          × ((spec : JobSpec) × ((a'.started ≡ spec ∷ a.started)
                × (is_inflight spec.job_id a'.registry.inflight ≡ true)))))
    × ((a'.shells ≡ a.shells) ⊎ (accepted ≡ true))
    × ((a'.secret ≡ a.secret) ⊎ (accepted ≡ true))

-- A command to update, and whether it asks for a reply.
abbrev update_message : Text → Bool → Message
update_message raw wanted = record {
  op = codes "agent.update";
  payload = raw;
  wants_reply = wanted;
  panics = false;
}

module _ (p : Payloads) (schedule_of : Entry → Option (ℕ → ℕ)) (w : Surroundings) where
  reserve-full :
      (spec : JobSpec) (r : Registry)
      → r.stopping ≡ false
      → is_inflight spec.job_id r.inflight ≡ false
      → max_concurrent_jobs ≤ r.slots
      → reserve spec r ≡ none
  unfolding reserve reserve_check take_slot
  reserve-full spec r s f l = ground (arith, s, f, l)

  -- A command that is answered, or waits for a slot.
  abbrev pub Answers : Agent → Option (Sent × Agent) → Type 0
  Answers a none = max_concurrent_jobs ≤ a.registry.slots
  Answers a (some (sent, a')) = IsHonest a (is_accepted sent) a'

  agent_update-waits :
      (raw : Text) (a : Agent) (id by : Text)
      → p.update_request raw ≡ some (id, by)
      → check_identifier (codes "job_id") id ≡ none
      → ready w.update ≡ none
      → reserve (update_spec p schedule_of w id [] []) a.registry ≡ none
      → agent_update p schedule_of w raw a ≡ none
  unfolding agent_update update_asked update_checked update_ready update_reserved
  agent_update-waits raw a id by q c y e =
      rw (agent_update, q, update_asked, c, update_checked, y, update_ready, e) refl

  -- An update that finds no free slot blocks the commands: neither it nor any message after it is answered,
  -- a `job.cancel` that could free a slot included.
  handle_all-blocked :
      (raw : Text) (wanted : Bool) (ms : List Message) (a : Agent) (id by : Text)
      → p.update_request raw ≡ some (id, by)
      → check_identifier (codes "job_id") id ≡ none
      → ready w.update ≡ none
      → a.registry.stopping ≡ false
      → is_inflight id a.registry.inflight ≡ false
      → max_concurrent_jobs ≤ a.registry.slots
      → handle_all p schedule_of w (update_message raw wanted ∷ ms) a ≡ ([], a)
  unfolding handle_all handle_command dispatch text_eq
  handle_all-blocked raw wanted ms a id by q c y s f l =
      let waits : agent_update p schedule_of w raw a ≡ none =
        agent_update-waits raw a id by q c y
          (reserve-full (update_spec p schedule_of w id [] []) a.registry s f l) in
      rw (handle_all, handle_command, dispatch, waits) refl
