-- ===== src/Jobs/Update.antt =====
-- agent/internal/jobs/update_wire.go: the job that updates the agent. The pipeline and the decoder of JSON
-- are parameters; `Wired` gives the pipeline of this development.
pub mod Ends
pub mod Restart
mod Tests
use everwas.Base.{
  inr, inl, ◌⊎◌, ℕ, ◌≡◌, Bool, true, false, not, ◌&&◌, Option, none, some, List, [], ◌∷◌, ◌++◌, map,
  if◌then◌else◌,
}
use everwas.Base.Int.{pos}
use everwas.Base.Text.{Text, codes, text_eq}
use everwas.Base.Decimal.{show_ℕ}
use everwas.Scripts.Chunk.{Chunk}
use everwas.Scripts.Job.{
  JobSpec, Result, Status, bare, succeeded, failed, timeout, cancelled, minus_one,
}
use everwas.Scripts.Runner.{Note, note, note_status, phase_started, phase_running, phase_finished}
use everwas.Update.Apply.{Request, Applied}
use everwas.Jobs.Failure.{Failure}
use everwas.Jobs.Effects.{
  JobEffect, says, sends, stderr_then, after, emits, applies, restarts, hands_off, agent_updated,
}

abbrev pub exit_already_current : ℕ
exit_already_current = 64

abbrev pub exit_version_denied : ℕ
exit_version_denied = 65

abbrev pub exit_finalize_pending : ℕ
exit_finalize_pending = 66

-- What the pipeline returned: a result, or nil, and an error, or nil.
abbrev pub PipelineEnd : Type 0
PipelineEnd = Option Applied × Option Failure

-- `restart` and `handoff` are whether the hooks are set.
pub record UpdateDeps : Type 0 where
  pub state_dir : Text
  pub version : Text
  pub restart : Bool
  pub handoff : Bool
  pub decode_request : Text → Failure ⊎ Request
  pub pipeline : Request → PipelineEnd

unfoldable pub ready : UpdateDeps → Option Text
ready d =
    if text_eq d.state_dir []
    then some (codes "self-update is not wired: no state dir")
    else if not d.restart
    then some (codes "self-update is not wired: no restart hook")
    else none

abbrev updated : Text → Result
updated version = record (bare succeeded (pos 0)) { updated_to = version }

unfoldable pub update_outcome : Text → Request → Option Applied → Option Failure → Result × Text
update_outcome current req out (some e) =
    if e.is_already_current
    then (
      record (bare succeeded (pos exit_already_current)) { updated_to = current },
      codes "agent update: already running " ++ current ++ codes ", nothing to do",
    )
    else if e.is_version_denied
    then (
      bare failed (pos exit_version_denied),
      codes "agent update refused: this host rolled "
          ++ req.version
          ++ codes " back already; send force to override",
    )
    else if e.is_finalize_pending
    then (
      bare failed (pos exit_finalize_pending),
      codes "agent update refused: a previous update is still finalizing",
    )
    else if e.is_deadline
    then (bare timeout minus_one, codes "agent update timed out: " ++ e.text)
    else if e.is_cancelled
    then (bare cancelled minus_one, codes "agent update cancelled")
    else (bare failed minus_one, codes "agent update failed: " ++ e.text)
update_outcome current req none none = (
  bare failed minus_one,
  codes "agent update failed: the update pipeline reported neither a result nor an error",
)
update_outcome current req (some out) none =
    if out.finalizing
    then (
      record (updated out.version) { finalizing = true },
      codes "agent update staged "
          ++ out.version
          ++ codes "; a helper process (pid "
          ++ show_ℕ out.finalizer_pid
          ++ codes ") completes the swap after this one exits, so the host is still on "
          ++ current
          ++ codes " until it reports back",
    )
    else (
      updated out.version,
      codes "agent update applied "
          ++ current
          ++ codes " -> "
          ++ out.version
          ++ codes "; restarting",
    )

abbrev is_succeeded : Status → Bool
is_succeeded succeeded = true
is_succeeded failed = false
is_succeeded timeout = false
is_succeeded cancelled = false

-- The end of `finish`.
unfoldable pub exit_effects : UpdateDeps → Request → Option Applied → Result → List JobEffect
exit_effects d req none res = []
exit_effects d req (some out) res =
    if not (is_succeeded res.status)
    then []
    else if res.finalizing && d.handoff
    then hands_off (codes "update finalizer is waiting to swap to " ++ req.version) ∷ []
    else if not res.finalizing && d.restart
    then restarts (codes "updated to " ++ req.version) ∷ []
    else []

abbrev pub no_request : Request
no_request = record {
  version = [];
  artifact_url = [];
  sha256 = [];
  signature = [];
  signature_url = [];
  public_keys = [];
  force = false;
}

module _ (refuses : Chunk → Bool) (d : UpdateDeps) (duration_ms : ℕ) (spec : JobSpec) where
  unfoldable pub finish : Result → Text → Request → Option Applied → Option (List JobEffect)
  unfolding stderr_then sends exit_effects
  finish res summary req out =
      let timed : Result = record res { duration_ms = duration_ms } in
      stderr_then refuses spec (codes "everwas-agent: " ++ summary ++ 10 ∷ []) (
        says 100 phase_finished (note_status timed.status)
        ∷ sends spec timed
        ∷ emits agent_updated spec
        ∷ exit_effects d req out timed)

  -- What decoding leaves of a request that it refuses is not modelled: only its version is told, and only
  -- to the audit stream.
  unfoldable pub execute_update : Option (List JobEffect)
  unfolding ready update_outcome finish
  execute_update =
      let start = says 0 phase_started (note spec.kind) in
      elim (d.decode_request spec.body) [
        | inl e ↦ after (start ∷ []) (
            finish (bare failed minus_one) (codes "agent update: bad request payload: " ++ e.text)
              no_request none)
        | inr req ↦ elim (ready d) [
          | some e ↦
              after (start ∷ [])
                (finish (bare failed minus_one) (codes "agent update: " ++ e) req none)
          | none ↦
              let (out, e) = d.pipeline req in
              let (res, summary) = update_outcome d.version req out e in
              after
                (start
                  ∷ says 10 phase_running (note (codes "downloading " ++ req.version))
                  ∷ applies
                  ∷ [])
                (finish res summary req out)
        ]
      ]
