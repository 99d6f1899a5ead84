-- ===== src/Jobs/Commands/Tests.antt =====
-- Runs of agent/internal/jobs/commands.go at concrete inputs.
use everwas.Base.{◌≡◌}
use everwas.Base.{ℕ}
use everwas.Base.{inl}
use everwas.Base.{true, false, Option, none, some, [], ◌∷◌, refl}
use everwas.Base.Int.{pos}
use everwas.Base.Text.{Text, codes, text_eq}
use everwas.Shell.Module.{OpenSpec, new_module}
use everwas.Shell.Session.{Link}
use everwas.Sched.Queue.{Entry}
use everwas.Jobs.Inflight.{new_registry}
use everwas.Jobs.Update.{UpdateDeps}
use everwas.Jobs.Commands.{
  replies, Agent, Surroundings, Payloads, rotate_creds, accept, refuse, unknown_command,
}
use everwas.Jobs.Commands.Serve.{Message, dispatch, handle_command, handle_all}

abbrev asks : Text → OpenSpec
asks id = record { session_id = id; idle_timeout_s = pos 0 }

abbrev link : Link
link = record { now = 9; connected = true; control = true; held_back = none; fresh = none }

abbrev deps : UpdateDeps
deps = record {
  state_dir = codes "/s";
  version = codes "1.1";
  restart = true;
  handoff = false;
  decode_request = λ t. inl (record {
    is_busy = false;
    is_deadline = false;
    is_cancelled = false;
    is_already_current = false;
    is_version_denied = false;
    is_finalize_pending = false;
    text = [];
  });
  pipeline = λ req. (none, none);
}

abbrev payloads : Payloads
payloads = record {
  open_spec = λ t. some (asks t);
  closed_session = some;
  cancelled_job = some;
  document = λ t. none;
  update_request = λ t. some (codes "j", t);
  new_secret = some;
}

abbrev surroundings : Surroundings
surroundings = record {
  now = 9;
  link = link;
  spawns = true;
  saves = true;
  rotates = some true;
  update = deps;
}

abbrev schedule : Entry → Option (ℕ → ℕ)
schedule e = none

abbrev idle : Agent
idle = record {
  registry = new_registry;
  scripts = none;
  shells = new_module;
  schedule = record {
    agent_id = codes "a";
    schedule_version = pos 0;
    entries = [];
    last_fired = [];
    pq = [];
  };
  started = [];
  secret = none;
}

abbrev message : Message
message = record { op = codes "agent.update"; payload = []; wants_reply = true; panics = false }

-- A secret is rotated; an unknown command is refused and changes nothing.
rotates_test :
    handle_all payloads schedule surroundings
      (record message { op = codes "agent.rotate_creds"; payload = codes "s" }
        ∷ record message { op = codes "x" }
        ∷ [])
      idle
    ≡ (
      (true, replies accept) ∷ (true, replies (refuse unknown_command)) ∷ [],
      record idle { secret = some (codes "s") },
    )
unfolding handle_all handle_command dispatch rotate_creds text_eq
rotates_test = refl
