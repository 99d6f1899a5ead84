-- ===== src/Update/Apply.antt =====
-- `Apply` of agent/internal/update/update.go, in its steps: each does one check or one call and goes on to
-- the next. The network, the helper process, the cryptography and the build's keys are parameters.
pub mod Checks
pub mod Tests
use everwas.Base.{
  ℕ, ◌+◌, ◌-◌, ◌*◌, Bool, true, false, not, ◌&&◌, ◌||◌, Option, none, some, List, [], ◌∷◌, ◌++◌,
  if◌then◌else◌, length, ◌==◌, take, drop,
}
use everwas.Base.Text.{Text, codes, text_eq, to_lower}
use everwas.Update.State.{State, is_empty}
use everwas.Update.Disk.{
  Disk, Op, Error, Result, ok, err, attempt, ignore, load, Action, ◌>>=◌, ◌>>◌,
}
use everwas.Update.Tracker.{is_denied, begin_update, begin_finalize, clear}
use everwas.Update.Swap.{swap}
use everwas.Update.Verify.{PublicKey, Answer, good, bad, trusted_keys, verify_sha256, verify_any}

pub data Platform : Type 0 where
  unix windows : Platform

unfoldable pub backup_path : Platform → Text → Text
backup_path unix target = target ++ codes ".old"
backup_path windows target =
    (if text_eq (to_lower (drop (length target - 4) target)) (codes ".exe")
      then take (length target - 4) target
      else target)
    ++ codes ".old.exe"

unfoldable pub needs_finalizer : Platform → Bool
needs_finalizer unix = false
needs_finalizer windows = true

pub record Request : Type 0 where
  pub version : Text
  pub artifact_url : Text
  pub sha256 : Text
  pub signature : Text
  pub signature_url : Text
  pub public_keys : List Text
  pub force : Bool

pub record Options : Type 0 where
  pub state_dir : Text
  pub target_path : Text
  pub current_version : Text

-- The failure of a step, with what a caller looks for in it.
pub data Failure : Type 0 where
  already_current version_denied finalize_pending : Failure
  validate keys download stage checksum signature swap_failed : Failure

pub record Applied : Type 0 where
  pub version : Text
  pub target : Text
  pub backup : Text
  pub finalizing : Bool
  pub finalizer_pid : ℕ

pub data Outcome : Type 0 where
  applied : Applied → Outcome
  failed : Failure → Outcome

-- Everything that Apply asks of its surroundings.
pub record Host : Type 0 where
  pub platform : Platform
  pub faults : Op → Bool
  pub now : ℕ
  pub executable : Option Text
  pub embedded_key : Text
  pub dev_build : Text
  pub downloaded : Text → Option Text
  pub fetched : Text → Option Text
  pub spawned : Option ℕ
  pub decode : Text → Option Text
  pub ed25519_verify : Text → Text → Text → Bool
  pub sha256_hex : Text → Text

module _ (h : Host) (req : Request) (opts : Options) where
  -- The partial download is not modelled.
  unfoldable pub discard : Disk → Disk
  discard d = (ignore (attempt h.faults Op.remove_staged (λ d. record d { staged_bin = none })) d).1

  abbrev pub answer : Text → Bool → ℕ → Outcome
  answer target finalizing pid = applied (record {
    version = req.version;
    target = target;
    backup = backup_path h.platform target;
    finalizing = finalizing;
    finalizer_pid = pid;
  })

  -- A swap that did not happen leaves nothing on probation.
  unfoldable pub give_up : Disk → Outcome × Disk
  unfolding clear discard
  give_up d = (failed swap_failed, discard (clear h.faults d).1)

  unfoldable pub hand_off : Text → Disk → Outcome × Disk
  unfolding begin_finalize give_up
  hand_off target d =
      if needs_finalizer h.platform
      then elim h.spawned [
        | none ↦ give_up d
        | some pid ↦ (answer target true pid, (begin_finalize h.faults pid d).1)
      ]
      else give_up d

  unfoldable pub after_swap : Text → Result (Unit {0}) → Disk → Outcome × Disk
  unfolding hand_off discard
  after_swap target (ok u) d = (answer target false 0, discard d)
  after_swap target (err e) d = hand_off target d

  unfoldable pub after_begin : Text → Result (Unit {0}) → Disk → Outcome × Disk
  unfolding after_swap swap discard
  after_begin target (err e) d = (failed stage, discard d)
  after_begin target (ok u) d = let (r, d') = swap h.faults d in after_swap target r d'

  unfoldable pub install : Text → Disk → Outcome × Disk
  unfolding begin_update after_begin backup_path
  install target d =
      let (r, d') =
        begin_update h.faults h.now req.version opts.current_version target
          (backup_path h.platform target) d in
      after_begin target r d'

  unfoldable pub check_signature :
      Text → List PublicKey → Text → Option Text → Disk → Outcome × Disk
  unfolding verify_any install discard
  check_signature target trusted body none d = (failed signature, discard d)
  check_signature target trusted body (some sig) d =
      elim (verify_any h.decode h.ed25519_verify h.sha256_hex trusted body sig) [
        | none ↦ install target d
        | some e ↦ (failed signature, discard d)
      ]

  abbrev given_signature : Option Text
  given_signature =
      if is_empty req.signature then h.fetched req.signature_url else some req.signature

  unfoldable pub check_artifact : Text → List PublicKey → Option Text → Disk → Outcome × Disk
  unfolding verify_sha256 check_signature discard
  check_artifact target trusted none d = (failed stage, discard d)
  check_artifact target trusted (some body) d =
      elim (verify_sha256 h.decode h.ed25519_verify h.sha256_hex body req.sha256) [
        | none ↦ check_signature target trusted body given_signature d
        | some e ↦ (failed checksum, discard d)
      ]

  unfoldable pub fetch_artifact : Text → List PublicKey → Option Text → Disk → Outcome × Disk
  unfolding check_artifact
  fetch_artifact target trusted none d = (failed download, d)
  fetch_artifact target trusted (some body) d =
      check_artifact target trusted (if h.faults Op.read_staged then none else some body)
        (record d { staged_bin = some body })

  unfoldable pub with_target : Option Text → Disk → Outcome × Disk
  unfolding trusted_keys fetch_artifact
  with_target none d = (failed validate, d)
  with_target (some target) d =
      elim (trusted_keys h.decode h.ed25519_verify h.sha256_hex h.embedded_key h.dev_build
        req.public_keys) [
          | bad e ↦ (failed keys, d)
          | good trusted ↦ fetch_artifact target trusted (h.downloaded req.artifact_url) d
        ]

  -- A state that cannot be read is not finalizing.
  unfoldable pub is_finalizing : Disk → Bool
  unfolding load
  is_finalizing d = elim (load h.faults d).0 [ ok st ↦ st.finalizing | err e ↦ false ]

  unfoldable pub is_invalid : Bool
  is_invalid =
      is_empty req.version
      || (is_empty req.artifact_url
          || (is_empty req.sha256
              || ((is_empty req.signature && is_empty req.signature_url)
                  || is_empty opts.state_dir)))

  unfoldable pub apply : Disk → Outcome × Disk
  unfolding is_denied is_finalizing with_target is_invalid
  apply d =
      if is_invalid
      then (failed validate, d)
      else if not (is_empty opts.current_version) && text_eq req.version opts.current_version
      then (failed already_current, d)
      else if not req.force && is_denied h.faults req.version d
      then (failed version_denied, d)
      else if is_finalizing d && not req.force
      then (failed finalize_pending, d)
      else with_target (if is_empty opts.target_path then h.executable else some opts.target_path) d
