-- ===== src/Scripts/Publish.antt =====
-- agent/internal/scripts/publish.go: how results, progress and the output of jobs without a process are
-- published. The stream of results is a parameter, since it belongs to the server.
pub mod Once
use everwas.Base.{
  ℕ, zero, suc, ◌+◌, ◌-◌, ◌*◌, ◌≡◌, Bool, true, false, ◌||◌, Option, none, some, List, [], ◌∷◌,
  ◌++◌, if◌then◌else◌, ◌==◌,
}
use everwas.Base.Text.{Text, text_eq}
use everwas.Scripts.Chunk.{Chunk, ChunkSink, Emitted, new_chunk_sink, stream_stdout, stream_stderr}
use everwas.Scripts.Chunk.Capture.{Call, call_write, call_eof}
use everwas.Scripts.Chunk.Capture
use everwas.Scripts.Job.{JobSpec, Result}

abbrev pub result_attempts : ℕ
result_attempts = 3

-- In nanoseconds.
abbrev pub result_backoff : ℕ
result_backoff = 250000000

-- The stream, its answer to one publish (whether it acknowledged the message), and the time slept.
pub record Published {ℓ} (Store : Type ℓ) : Type ℓ where
  pub store : Store
  pub acknowledged : Bool
  pub slept : ℕ
  pub sends : ℕ

-- `server n` is what the n-th `PublishMsg` of the message does to the stream, and whether it returns nil.
module _ {ℓ} {Store : Type ℓ} (server : ℕ → Store → Store × Bool) where
  pub publish_from : ℕ → ℕ → Store → Published Store
  publish_from attempt zero store = record {
    store = store;
    acknowledged = false;
    slept = 0;
    sends = 0;
  }
  publish_from attempt (suc left) store =
      let (store', ok) = server attempt store in
      let rest = publish_from (suc attempt) left store' in
      if ok
      then record {
        store = store';
        acknowledged = true;
        slept = attempt * result_backoff;
        sends = 1;
      }
      else record rest { slept = attempt * result_backoff + rest.slept; sends = suc rest.sends }

  unfoldable pub publish_ack : Store → Published Store
  unfolding publish_from
  publish_ack store = publish_from 0 result_attempts store

-- The job and the entry of a result that the runner did not make itself.
unfoldable pub publish_result : JobSpec → Result → Text × Result
publish_result job res = (job.job_id, record res { entry_id = job.entry_id })

pub record ProgressMsg : Type 0 where
  pub seq : ℕ
  pub pct : ℕ
  pub phase : Text
  pub note : Text

-- The n-th call of the function that `Progress` returned: the message and the counter after it.
unfoldable pub progress_msg : ℕ → ℕ → Text → Text → ProgressMsg × ℕ
progress_msg seq pct phase note =
    (record { seq = suc seq; pct = pct; phase = phase; note = note }, suc seq)

-- The output of a job that never had a process.
unfoldable pub publish_stderr : (Chunk → Bool) → JobSpec → Text → Option Emitted
unfolding Capture.run
publish_stderr refuses job text =
    Capture.run refuses
      (call_write stream_stderr text ∷ call_eof stream_stdout ∷ call_eof stream_stderr ∷ [])
      (new_chunk_sink job.job_id job.entry_id)
