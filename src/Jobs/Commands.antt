-- ===== src/Jobs/Commands.antt =====
-- agent/internal/jobs/commands.go: the commands of the server, over the registry, the script runner, the shell
-- sessions and the schedule. An error is its kind. The callback handles one message after the other.
pub mod Serve
pub mod Replies
mod Tests
use everwas.Base.{
  ℕ, Bool, true, false, not, Option, none, some, List, [], ◌∷◌, ◌++◌, if◌then◌else◌, length, drop,
  take,
}
use everwas.Base.Int.{ℤ, pos}
use everwas.Base.Text.{Text, codes, text_eq, has_prefix}
use everwas.Update.State.{is_empty}
use everwas.Wire.Identifier.{check_identifier, IdentifierError}
use everwas.Scripts.Job.{JobSpec}
use everwas.Scripts.Running.{Runner}
use everwas.Shell.Session.{Link, Out}
use everwas.Shell.Module.{Module, OpenSpec, open_session, close_session, count}
use everwas.Sched.Queue.{Entry, Document, Scheduler, sync}
use everwas.Jobs.Inflight.{Registry, Refusal, reserve, cancel_job}
use everwas.Jobs.Update.{UpdateDeps, ready}

pub data CommandError : Type 0 where
  bad_payload refused not_running not_persisted entries_rejected : CommandError
  no_secret not_wired unknown_command internal_error : CommandError

pub record Reply : Type 0 where
  pub accepted : Bool
  pub error : Option CommandError
  pub job_id : Text
  pub session_id : Text
  pub schedule_version : ℤ
  pub cancelled : Option Bool
  pub rejected : List Text

abbrev pub refuse : CommandError → Reply
refuse e = record {
  accepted = false;
  error = some e;
  job_id = [];
  session_id = [];
  schedule_version = pos 0;
  cancelled = none;
  rejected = [];
}

abbrev pub accept : Reply
accept = record {
  accepted = true;
  error = none;
  job_id = [];
  session_id = [];
  schedule_version = pos 0;
  cancelled = none;
  rejected = [];
}

-- What is sent back: the answer to a ping, with the number of sessions, or a reply.
pub data Sent : Type 0 where
  pong : ℕ → Sent
  replies : Reply → Sent

-- The agent, with the jobs that were started, and whether a new secret was installed.
pub record Agent : Type 0 where
  pub registry : Registry
  pub scripts : Option Runner
  pub shells : Module
  pub schedule : Scheduler
  pub started : List JobSpec
  pub secret : Option Text

-- What the handlers ask of their surroundings; `spawns` is whether a terminal could be opened, `saves`
-- whether the schedule could be saved, and `rotates` what the hook for secrets does, if it is set.
pub record Surroundings : Type 0 where
  pub now : ℕ
  pub link : Link
  pub spawns : Bool
  pub saves : Bool
  pub rotates : Option Bool
  pub update : UpdateDeps

-- `json.Unmarshal` of each payload; `none` is an error.
pub record Payloads : Type 0 where
  pub open_spec : Text → Option OpenSpec
  pub closed_session : Text → Option Text
  pub cancelled_job : Text → Option Text
  pub document : Text → Option Document
  pub update_request : Text → Option (Text × Text)
  pub new_secret : Text → Option Text

module _ (p : Payloads) (schedule_of : Entry → Option (ℕ → ℕ)) (w : Surroundings) where
  unfoldable pub shell_open : Text → Agent → Reply × Agent
  unfolding open_session
  shell_open raw a = elim (p.open_spec raw) [
    | none ↦ (refuse bad_payload, a)
    | some spec ↦
        let (error, shells) = open_session w.spawns w.now spec a.shells in
        elim error [
          | some e ↦ (
            record (refuse refused) { session_id = spec.session_id },
            record a { shells = shells },
          )
          | none ↦ (record accept { session_id = spec.session_id }, record a { shells = shells })
        ]
  ]

  unfoldable pub shell_close : Text → Agent → Reply × Agent
  unfolding close_session
  shell_close raw a = elim (p.closed_session raw) [
    | none ↦ (refuse bad_payload, a)
    | some id ↦
        let (found, outs, shells) = close_session w.link id a.shells in
        (
          record (if found then accept else refuse refused) { session_id = id },
          record a { shells = shells },
        )
  ]

  unfoldable pub job_cancel : Text → Agent → Reply × Agent
  unfolding cancel_job
  job_cancel raw a = elim (p.cancelled_job raw) [
    | none ↦ (refuse bad_payload, a)
    | some id ↦
        let (found, scripts) = cancel_job id a.registry a.scripts in
        (
          record (if found then accept else refuse not_running) {
            job_id = id;
            cancelled = some found;
          },
          record a { scripts = scripts },
        )
  ]

  -- The reply to a document that was taken over.
  abbrev pub synced : List Text → ℤ → Reply
  synced rejected version =
      if not w.saves
      then record (refuse not_persisted) { schedule_version = version; rejected = rejected }
      else elim rejected [
        | [] ↦ record accept { schedule_version = version }
        | r ∷ rs ↦ record (refuse entries_rejected) {
          schedule_version = version;
          rejected = r ∷ rs;
        }
      ]

  unfoldable pub sched_sync : Text → Agent → Reply × Agent
  unfolding sync
  sched_sync raw a = elim (p.document raw) [
    | none ↦ (refuse bad_payload, a)
    | some doc ↦
        let (names, s) = sync schedule_of w.now doc a.schedule in
        elim names [
          | none ↦ (record (refuse refused) { schedule_version = s.schedule_version }, a)
          | some rejected ↦ (synced rejected s.schedule_version, record a { schedule = s })
        ]
  ]

  abbrev pub update_spec : Text → Text → Text → JobSpec
  update_spec id by raw = record {
    job_id = id;
    kind = codes "agent.update";
    shell = [];
    body = raw;
    timeout_s = pos 0;
    env = [];
    requested_by = by;
    entry_id = [];
  }

  -- `none` where the callback waits for a slot; by what the reservation gave.
  unfoldable pub update_reserved :
      Text → Text → Text → Agent → Option (Option Refusal × Registry) → Option (Reply × Agent)
  update_reserved id by raw a none = none
  update_reserved id by raw a (some (some e, registry)) =
      some (record (refuse refused) { job_id = id }, record a { registry = registry })
  update_reserved id by raw a (some (none, registry)) = some (
    record accept { job_id = id },
    record a { registry = registry; started = update_spec id by raw ∷ a.started },
  )

  -- By what `ready` gave.
  unfoldable pub update_ready : Text → Text → Text → Agent → Option Text → Option (Reply × Agent)
  unfolding update_reserved reserve
  update_ready id by raw a (some e) = some (record (refuse not_wired) { job_id = id }, a)
  update_ready id by raw a none =
      update_reserved id by raw a (reserve (update_spec id [] []) a.registry)

  -- By what the test of the job's id gave.
  unfoldable pub update_checked :
      Text → Text → Text → Agent → Option (Text × IdentifierError) → Option (Reply × Agent)
  unfolding update_ready ready
  update_checked id by raw a (some e) = some (refuse refused, a)
  update_checked id by raw a none = update_ready id by raw a (ready w.update)

  -- By what was read.
  unfoldable pub update_asked : Text → Agent → Option (Text × Text) → Option (Reply × Agent)
  unfolding update_checked check_identifier
  update_asked raw a none = some (refuse bad_payload, a)
  update_asked raw a (some (id, by)) =
      update_checked id by raw a (check_identifier (codes "job_id") id)

  unfoldable pub agent_update : Text → Agent → Option (Reply × Agent)
  unfolding update_asked
  agent_update raw a = update_asked raw a (p.update_request raw)

  unfoldable pub rotate_creds : Text → Agent → Reply × Agent
  rotate_creds raw a = elim (p.new_secret raw) [
    | none ↦ (refuse bad_payload, a)
    | some secret ↦ if is_empty secret then (refuse no_secret, a) else elim w.rotates [
      | none ↦ (refuse not_wired, a)
      | some ok ↦
          if ok then (accept, record a { secret = some secret }) else (refuse not_persisted, a)
    ]
  ]
