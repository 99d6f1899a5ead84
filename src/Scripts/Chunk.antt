-- ===== src/Scripts/Chunk.antt =====
-- agent/internal/scripts/chunk.go. A method runs under the sink's mutex, so it is one step; a method
-- that mutates the sink returns the new one, after the chunks that it handed to `emit`.
pub mod Frames
pub mod Capture
pub mod Refused
use everwas.Base.{
  ℕ, zero, suc, ◌+◌, ◌-◌, min, Bool, true, false, ◌||◌, Option, none, some, List, [], ◌∷◌, ◌++◌,
  ltb, ◌==◌, if◌then◌else◌, length, take, drop,
}
use everwas.Base.Text.{Text, codes}

pub record Chunk : Type 0 where
  pub job_id : Text
  pub stream : Text
  pub seq : ℕ
  pub body : Text
  pub eof : Bool
  pub entry_id : Text

-- `seq` and `written` are ints; `written` stays within the cap and `seq` counts the chunks, so neither
-- can come near 2^63.
pub record ChunkSink : Type 0 where
  pub job_id : Text
  pub entry_id : Text
  pub max_chunk : ℕ
  pub cap_bytes : ℕ
  pub seq : ℕ
  pub written : ℕ
  pub truncated : Bool
  pub stopped : Bool

abbrev pub max_chunk_bytes : ℕ
max_chunk_bytes = 262144

abbrev pub max_job_output_bytes : ℕ
max_job_output_bytes = 8388608

abbrev pub stream_stdout : Text
stream_stdout = codes "stdout"

abbrev pub stream_stderr : Text
stream_stderr = codes "stderr"

unfoldable pub new_chunk_sink : Text → Text → ChunkSink
new_chunk_sink job_id entry_id = record {
  job_id = job_id;
  entry_id = entry_id;
  max_chunk = max_chunk_bytes;
  cap_bytes = max_job_output_bytes;
  seq = 0;
  written = 0;
  truncated = false;
  stopped = false;
}

-- The chunks that a call emitted, in order, whether it failed, and the sink that it left.
pub record Emitted : Type 0 where
  pub chunks : List Chunk
  pub failed : Bool
  pub sink : ChunkSink

abbrev pub next_chunk : Text → Text → Bool → ChunkSink → Chunk
next_chunk stream body eof s = record {
  job_id = s.job_id;
  stream = stream;
  seq = suc s.seq;
  body = body;
  eof = eof;
  entry_id = s.entry_id;
}

-- `refuses` says for which chunks `emit` returns an error. No two chunks of a sink are equal, so it
-- stands for any behaviour of the publisher.
module _ (refuses : Chunk → Bool) where
  unfoldable pub send : Text → Text → Bool → ChunkSink → Emitted
  send stream body eof s =
      let c = next_chunk stream body eof s in
      record { chunks = c ∷ []; failed = refuses c; sink = record s { seq = suc s.seq } }

  unfoldable pub after : Emitted → Option Emitted → Option Emitted
  after first none = none
  after first (some rest) = some (record rest { chunks = first.chunks ++ rest.chunks })

  -- The loop of `write`; `none` is a loop that has not ended in `fuel` rounds.
  unfoldable pub write_loop : ℕ → Text → Text → ChunkSink → Option Emitted
  unfolding send after
  write_loop zero stream p s = none
  write_loop (suc fuel) stream [] s = some (record { chunks = []; failed = false; sink = s })
  write_loop (suc fuel) stream (b ∷ p) s =
      let n = min (length (b ∷ p)) s.max_chunk in
      let first = send stream (take n (b ∷ p)) false s in
      let s' = first.sink in
      let rest =
        after first
          (write_loop fuel stream (drop n (b ∷ p)) (record s' { written = s'.written + n })) in
      if first.failed then some first else rest

  -- A round takes at least one byte, so one round more than there are bytes is enough.
  unfoldable pub write : Text → Text → ChunkSink → Option Emitted
  unfolding write_loop
  write stream p s =
      let remaining = s.cap_bytes - s.written in
      if length p == 0 || (s.truncated || s.stopped)
      then some (record { chunks = []; failed = false; sink = s })
      else if ltb remaining (length p)
      then write_loop (suc (length p)) stream (take remaining p) (record s { truncated = true })
      else write_loop (suc (length p)) stream p s

  unfoldable pub eof : Text → ChunkSink → Emitted
  unfolding send
  eof stream s = send stream [] true s

unfoldable pub stop : ChunkSink → ChunkSink
stop s = record s { stopped = true }

unfoldable pub is_truncated : ChunkSink → Bool
is_truncated s = s.truncated
