-- ===== src/Scripts/Tests.antt =====
-- Runs of agent/internal/scripts/chunk.go at concrete inputs.
use everwas.Scripts.Publish.{publish_ack}
use everwas.Scripts.Publish.Once.{copies}
use everwas.Scripts.Env.{scrub_env, kept_env, keep_host, add_extra, set_key}
use everwas.Scripts.Stage.{safe_name, safe_codes, trim_dots_left, trim_dots_right}
use everwas.Base.{
  ℕ, refl, leb, if◌then◌else◌, contains, ◌≤◌, ◌≡◌, Bool, true, false, List, [], ◌∷◌, some, arith,
}
use everwas.Base.Text.{Text, text_eq, cut, member, sort_texts, insert_sorted, text_lt, codes}
use everwas.Scripts.Chunk.{Chunk, ChunkSink, Emitted}
use everwas.Scripts.Chunk.Frames.{payload}
use everwas.Scripts.Chunk.Capture.{
  Call, call_write, call_eof, call_stop, run, Numbered, run_captures,
}

abbrev small_sink : ChunkSink
small_sink = record {
  job_id = codes "j";
  entry_id = [];
  max_chunk = 2;
  cap_bytes = 5;
  seq = 0;
  written = 0;
  truncated = false;
  stopped = false;
}

abbrev accepts : Chunk → Bool
accepts c = false

abbrev calls : List Call
calls =
    call_write (codes "stdout") (codes "abc")
    ∷ call_write (codes "stderr") (codes "defg")
    ∷ call_eof (codes "stdout")
    ∷ call_stop
    ∷ call_write (codes "stdout") (codes "late")
    ∷ []

run_captures_example :
    (o : Emitted) × (run accepts calls small_sink ≡ some o)
    × Numbered 0 o.chunks
    × (o.sink.written ≤ o.sink.cap_bytes)
    × (o.failed ≡ false → payload o.chunks ≡ codes "abcde")
    × (o.failed ≡ false → o.sink.truncated ≡ true)
run_captures_example = run_captures accepts calls small_sink (omega arith) (omega arith)

-- A server that stores the message and loses the first acknowledgement.
abbrev only_m : ℕ → List Text → List Text × Bool
only_m n ids = if leb 1 (copies (codes "m") ids) then (ids, true) else (codes "m" ∷ ids, false)

-- The second send is acknowledged.
publish_ack_retries :
    ((publish_ack only_m []).sends ≡ 2) × ((publish_ack only_m []).store ≡ codes "m" ∷ [])
unfolding publish_ack text_eq
publish_ack_retries = (refl, refl)

-- The host's token is left out, and a name with `=` is not taken.
scrub_env_drops :
    scrub_env
      (codes "PATH=/bin" ∷ codes "TOKEN=x" ∷ [])
      ((codes "A", codes "1") ∷ (codes "B=C", codes "2") ∷ [])
    ≡ codes "A=1" ∷ codes "PATH=/bin" ∷ []
unfolding scrub_env kept_env keep_host add_extra set_key cut member text_eq contains sort_texts
    insert_sorted text_lt
scrub_env_drops = refl

-- Two job ids may have one directory.
safe_name_clash : safe_name (codes "sched:a:1") ≡ safe_name (codes "sched_a_1")
unfolding safe_name safe_codes trim_dots_left trim_dots_right text_eq
safe_name_clash = refl
