-- ===== src/Jobs/Commands/Serve.antt =====
-- agent/internal/jobs/commands.go: the dispatch of the commands, and the callback that takes one message
-- after the other.
use everwas.Base.{ℕ, Bool, Option, none, some, List, [], ◌∷◌, if◌then◌else◌}
use everwas.Base.Text.{Text, codes, text_eq}
use everwas.Shell.Module.{count}
use everwas.Sched.Queue.{Entry}
use everwas.Jobs.Commands.{
  Reply, Sent, pong, replies, Agent, Surroundings, Payloads, refuse, unknown_command,
  internal_error, shell_open, shell_close, job_cancel, sched_sync, agent_update, rotate_creds,
}

abbrev pub answered : Reply × Agent → Option (Sent × Agent)
answered (r, a) = some (replies r, a)

abbrev pub answered_later : Option (Reply × Agent) → Option (Sent × Agent)
answered_later none = none
answered_later (some (r, a)) = some (replies r, a)

-- A message: its command, its payload, whether it has a reply subject, and whether its handler panics while
-- it reads the payload.
pub record Message : Type 0 where
  pub op : Text
  pub payload : Text
  pub wants_reply : Bool
  pub panics : Bool

module _ (p : Payloads) (schedule_of : Entry → Option (ℕ → ℕ)) (w : Surroundings) where
  -- `dispatchCommand` by the last part of the subject.
  unfoldable pub dispatch : Text → Text → Agent → Option (Sent × Agent)
  unfolding shell_open shell_close job_cancel sched_sync agent_update rotate_creds text_eq count
  dispatch op raw a =
      if text_eq op (codes "ping")
      then some (pong (count a.shells), a)
      else if text_eq op (codes "shell.open")
      then answered (shell_open p schedule_of w raw a)
      else if text_eq op (codes "shell.close")
      then answered (shell_close p schedule_of w raw a)
      else if text_eq op (codes "job.cancel")
      then answered (job_cancel p schedule_of w raw a)
      else if text_eq op (codes "sched.sync")
      then answered (sched_sync p schedule_of w raw a)
      else if text_eq op (codes "agent.update")
      then answered_later (agent_update p schedule_of w raw a)
      else if text_eq op (codes "agent.rotate_creds")
      then answered (rotate_creds p schedule_of w raw a)
      else some (replies (refuse unknown_command), a)

  unfoldable pub handle_command : Message → Agent → Option (Sent × Agent)
  unfolding dispatch
  handle_command m a =
      if m.panics then some (replies (refuse internal_error), a) else dispatch m.op m.payload a

  -- The replies to a list of messages, each with whether it was asked for, and the agent; the messages after
  -- one that waits are not handled.
  unfoldable pub handle_all : List Message → Agent → List (Bool × Sent) × Agent
  unfolding handle_command
  handle_all [] a = ([], a)
  handle_all (m ∷ ms) a = elim (handle_command m a) [
    | none ↦ ([], a)
    | some (sent, a') ↦ let (later, end) = handle_all ms a' in ((m.wants_reply, sent) ∷ later, end)
  ]
