-- ===== src/Update/Apply/Tests.antt =====
-- Runs of agent/internal/update/swap.go, verify.go and update.go at concrete inputs.
use everwas.Base.{Bool, true, false, ◌≡◌, refl, Option, some, none, List, [], ◌∷◌, ◌++◌, ◌⊎◌, Any}
use everwas.Base.Text.{
  Text, codes, text_eq, member, trim_space, trim_left, trim_right, is_space, split,
}
use everwas.Update.State.{is_empty}
use everwas.Update.Disk.{Op, ok, save, load, drop_marker, drop_starts}
use everwas.Update.Tests.{fault_free, settled, on_disk, in_flight}
use everwas.Update.Tracker.{is_denied, begin_update, write_probation, denied, add_all}
use everwas.Update.Swap.{swap, copy_file, move_aside, move_in}
use everwas.Update.Swap.Undo.{swap_lem}
use everwas.Update.Verify.{
  PublicKey, parse_public_key, trusted_keys, collect_keys, last_non_empty_line, non_empty_lines_of,
  verify_sha256, verify_any, verify_each, verify, parse_signature, parse_lines, read_trailer,
  verify_parsed,
}
use everwas.Update.Verify.Trust.{Signs, verify_any-none}
use everwas.Update.Apply.{
  Host, unix, Request, Options, apply, is_invalid, is_finalizing, with_target, fetch_artifact,
  check_artifact, check_signature, install, after_begin, after_swap, discard,
}
use everwas.Update.Apply.Checks.{Refused, Vouched, apply-Vouched}

swap_lem_example :
    let d = on_disk in_flight in
    let (r, d') = swap fault_free d in
    (d'.staged_bin ≡ d.staged_bin)
    × (r ≡ ok tt
        → (d'.target_bin ≡ d.staged_bin)
          × (d'.backup_bin ≡ some (codes "new"))
          × (d'.new_bin ≡ none))
    × ((r ≡ ok tt → ⊥)
        → (d'.target_bin ≡ some (codes "new"))
          ⊎ ((d'.target_bin ≡ none)
              × (d'.backup_bin ≡ some (codes "new"))
              × (fault_free Op.rename_new ≡ true)
              × (fault_free Op.undo_rename ≡ true)))
swap_lem_example = swap_lem fault_free (codes "new") (on_disk in_flight) refl

-- Texts are their own base64, every signature holds, and each digest is the body.
abbrev decode_all : Text → Option Text
decode_all t = some t

abbrev holds : Text → Text → Text → Bool
holds key message sig = true

abbrev identity : Text → Text
identity t = t

abbrev key_text : Text
key_text = codes "Edkey-id-10123456789abcdef0123456789abcdef"

abbrev signature_text : Text
signature_text =
    codes "untrusted comment: a"
    ++ 10 ∷ codes "Edkey-id-10123456789abcdef0123456789abcdef0123456789abcdef0123456789abcdef"

abbrev public_key : PublicKey
public_key = record {
  algorithm = codes "Ed";
  key_id = codes "key-id-1";
  key = codes "0123456789abcdef0123456789abcdef";
}

verify_any-none_example :
    Any (Signs decode_all holds identity (codes "artifact") signature_text) (public_key ∷ [])
unfolding verify_any verify_each verify parse_signature parse_lines read_trailer verify_parsed
    non_empty_lines_of trim_space trim_left trim_right is_space split text_eq
verify_any-none_example =
    verify_any-none decode_all holds identity (public_key ∷ []) (codes "artifact") signature_text
      refl

abbrev pub host : Host
host = record {
  platform = unix;
  faults = fault_free;
  now = 5;
  executable = some (codes "/a");
  embedded_key = key_text;
  dev_build = [];
  downloaded = λ url. some (codes "artifact");
  fetched = λ url. none;
  spawned = none;
  decode = decode_all;
  ed25519_verify = holds;
  sha256_hex = identity;
}

abbrev pub request : Request
request = record {
  version = codes "1.3";
  artifact_url = codes "u";
  sha256 = codes "artifact";
  signature = signature_text;
  signature_url = [];
  public_keys = [];
  force = false;
}

abbrev pub options : Options
options = record { state_dir = codes "/s"; target_path = []; current_version = codes "1.1" }

apply-Vouched_example :
    Refused host request options
      (on_disk settled)
      (apply host request options (on_disk settled)).0
      (apply host request options (on_disk settled)).1
    ⊎ ((is_invalid host request options ≡ false)
        × ((is_empty options.current_version ≡ true)
            ⊎ (text_eq request.version options.current_version ≡ false))
        × ((request.force ≡ true)
            ⊎ ((is_denied host.faults request.version (on_disk settled) ≡ false)
                × (is_finalizing host request options (on_disk settled) ≡ false)))
        × ((body : Text) × ((trusted : List PublicKey) × Vouched host request options body
                trusted)))
apply-Vouched_example = apply-Vouched host request options (on_disk settled)

-- The run that the witness above is about installs the artifact.
apply_installs :
    (apply host request options (on_disk settled)).1.target_bin ≡ some (codes "artifact")
unfolding apply is_denied is_finalizing with_target is_invalid trusted_keys collect_keys
    parse_public_key last_non_empty_line fetch_artifact check_artifact verify_sha256 check_signature
    verify_any verify_each verify parse_signature parse_lines read_trailer verify_parsed install
    begin_update after_begin swap copy_file move_aside move_in after_swap discard load save
    write_probation drop_marker drop_starts denied add_all member non_empty_lines_of trim_space
    trim_left trim_right is_space split text_eq
apply_installs = refl
