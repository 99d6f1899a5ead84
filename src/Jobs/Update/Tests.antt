-- ===== src/Jobs/Update/Tests.antt =====
-- A run of agent/internal/jobs/update_wire.go that installs an artifact.
use everwas.Base.{◌≡◌, refl, Bool, true, false, none, some, List, [], inr}
use everwas.Base.Int.{pos}
use everwas.Base.Text.{codes, text_eq, member, trim_space, trim_left, trim_right, is_space, split}
use everwas.Scripts.Chunk.{Chunk, new_chunk_sink, write, write_loop, send, eof, stop, after}
use everwas.Scripts.Chunk.Capture
use everwas.Scripts.Job.{JobSpec}
use everwas.Scripts.Publish.{publish_stderr, publish_result}
use everwas.Update.Disk.{save, load, drop_marker, drop_starts}
use everwas.Update.Tests.{settled, on_disk}
use everwas.Update.Tracker.{is_denied, begin_update, write_probation, denied, add_all}
use everwas.Update.Swap.{swap, copy_file, move_aside, move_in}
use everwas.Update.Verify.{
  parse_public_key, trusted_keys, collect_keys, last_non_empty_line, non_empty_lines_of,
  verify_sha256, verify_any, verify_each, verify, parse_signature, parse_lines, read_trailer,
  verify_parsed,
}
use everwas.Update.Apply.{
  Request, apply, is_invalid, is_finalizing, with_target, fetch_artifact, check_artifact,
  check_signature, install, after_begin, after_swap, discard,
}
use everwas.Update.Apply.Tests.{host, request}
use everwas.Jobs.Effects.{JobEffect, stderr_then, sends}
use everwas.Jobs.Update.{UpdateDeps, execute_update, finish, ready, update_outcome, exit_effects}
use everwas.Jobs.Update.Restart.{options_of, wired, pipeline_end, IsVouched, restart-IsVouched}

abbrev deps : UpdateDeps
deps = record {
  state_dir = codes "/s";
  version = codes "1.1";
  restart = true;
  handoff = false;
  decode_request = λ t. inr request;
  pipeline = λ req. (none, none);
}

abbrev spec : JobSpec
spec = record {
  job_id = codes "j";
  kind = codes "agent.update";
  shell = [];
  body = codes "{}";
  timeout_s = pos 0;
  env = [];
  requested_by = [];
  entry_id = [];
}

abbrev accepts : Chunk → Bool
accepts c = false

abbrev all_wired : UpdateDeps
all_wired = wired deps host (on_disk settled) false false []

abbrev trace : List JobEffect
trace = elim (execute_update accepts all_wired 9 spec) [ none ↦ [] | some es ↦ es ]

restart-IsVouched_example :
    (req : Request) × (deps.decode_request spec.body ≡ inr req)
    × (deps.restart ≡ true)
    × IsVouched host req (options_of deps) (on_disk settled)
unfolding execute_update wired pipeline_end ready update_outcome finish exit_effects stderr_then
    sends publish_stderr publish_result Capture.run Capture.step new_chunk_sink write write_loop
    send eof stop after apply is_denied is_finalizing with_target is_invalid trusted_keys
    collect_keys parse_public_key last_non_empty_line fetch_artifact check_artifact verify_sha256
    check_signature verify_any verify_each verify parse_signature parse_lines read_trailer
    verify_parsed install begin_update after_begin swap copy_file move_aside move_in after_swap
    discard load save write_probation drop_marker drop_starts denied add_all member
    non_empty_lines_of trim_space trim_left trim_right is_space split text_eq
restart-IsVouched_example =
    restart-IsVouched accepts deps host (on_disk settled) false false [] 9 spec trace refl refl
