-- ===== src/Jobs/Tests.antt =====
-- Runs of agent/internal/jobs at concrete inputs.
use everwas.Base.{Bool, true, false, none, some, [], inl}
use everwas.Base.Int.{pos}
use everwas.Base.Text.{codes}
use everwas.Scripts.Chunk.{Chunk}
use everwas.Scripts.Interp.{unix}
use everwas.Scripts.Job.{JobSpec, no_error}
use everwas.Scripts.Runner.{Host}
use everwas.Jobs.Update.{UpdateDeps}
use everwas.Jobs.Dispatch.{Surroundings}

abbrev accepts : Chunk → Bool
accepts c = false

abbrev host : Host
host = record {
  os = unix;
  environ = [];
  look = λ name. none;
  script = [];
  stage_error = none;
  pipe_error = none;
  start_error = none;
  writes = [];
  drained = true;
  late = [];
  asks = [];
  wait_error = no_error;
  duration_ms = 1;
}

abbrev update : UpdateDeps
update = record {
  state_dir = codes "/s";
  version = codes "1.1";
  restart = true;
  handoff = false;
  decode_request = λ t. inl (record {
    is_busy = false;
    is_deadline = false;
    is_cancelled = false;
    is_already_current = false;
    is_version_denied = false;
    is_finalize_pending = false;
    text = codes "bad";
  });
  pipeline = λ req. (none, none);
}

abbrev surroundings : Surroundings
surroundings = record {
  version = codes "1.1";
  duration_ms = 3;
  host = host;
  json = record { object_lists = λ t. none; string_array = λ t. none };
  patch = record { manager = none; refresh_patch_state = none };
  update = update;
  refresh = some none;
}

abbrev nightly : JobSpec
nightly = record {
  job_id = codes "j";
  kind = codes "inventory.refresh";
  shell = [];
  body = [];
  timeout_s = pos 0;
  env = [];
  requested_by = [];
  entry_id = codes "e";
}
