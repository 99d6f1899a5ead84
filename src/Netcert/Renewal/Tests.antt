-- ===== src/Netcert/Renewal/Tests.antt =====
-- Renewals of agent/internal/netcert at concrete inputs.
use everwas.Base.{◌≡◌, ◌*◌, refl, Bool, true, false, Option, some, none, if◌then◌else◌}
use everwas.Base.Int.{second}
use everwas.Base.Text.{Text, codes, text_eq}
use everwas.Netcert.Phase.{Material, due_for_renewal}
use everwas.Netcert.Renewal.{
  CertOp, CertDisk, Answer, answered, no_answer, other_error, request, load, ensure,
}
use everwas.Netcert.Renewal.Kept.{Kept, ensure_lem, ensure-mismatch}

abbrev old : Material
old = record { not_before = 0; not_after = 80 * second; serial = codes "1"; issued = false }

-- Only the old certificate parses.
abbrev parse : Text → Option Material
parse t = if text_eq t (codes "old") then some old else none

abbrev sound : CertOp → Bool
sound op = false

abbrev disk : CertDisk
disk = record {
  key_file = some (codes "key1");
  cert_file = some (codes "old");
  chain_file = some (codes "ca");
}

ensure_lem_example :
    Kept parse sound
      (some (codes "key2"))
      (no_answer other_error)
      (50 * second)
      disk
      (ensure parse sound (some (codes "key2")) true (no_answer other_error) (50 * second) disk)
ensure_lem_example =
    ensure_lem parse sound (some (codes "key2")) true (no_answer other_error) (50 * second) disk

abbrev garbled : Answer
garbled = answered 200 (some (codes "new", codes "ca"))

ensure-mismatch_example :
    let d' = (ensure parse sound (some (codes "key2")) true garbled (50 * second) disk).1 in
    (d'.key_file ≡ some (codes "key2")) × (d'.cert_file ≡ disk.cert_file)
unfolding load text_eq due_for_renewal request
ensure-mismatch_example =
    ensure-mismatch parse sound (codes "key2") (codes "new") (codes "ca") garbled (50 * second) disk
      old refl refl refl refl (λ op. refl)
