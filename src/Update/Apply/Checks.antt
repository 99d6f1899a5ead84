-- ===== src/Update/Apply/Checks.antt =====
-- What agent/internal/update/update.go has checked before it touches a binary.
use everwas.Base.{
  if◌then◌else◌, Bool, true, false, ◌≡◌, refl, ◌⊎◌, inl, inr, Option, none, some, List, arith, Any,
  Bool-cases, Option-cases,
}
use everwas.Base.Text.{text_eq, Text}
use everwas.Update.State.{is_empty}
use everwas.Update.Disk.{Disk, Op}
use everwas.Update.Tracker.{is_denied}
use everwas.Update.Tracker.Frame.{KeepsBinaries}
use everwas.Update.Verify.{PublicKey, good, trusted_keys, verify_sha256, verify_any}
use everwas.Update.Verify.Trust.{Signs, verify_any-none, Answer-cases}
use everwas.Update.Apply.{
  Host, Request, Options, Outcome, applied, failed, discard, check_signature, check_artifact,
  fetch_artifact, with_target, is_finalizing, is_invalid, apply, given_signature,
}

abbrev pub is_applied : Outcome → Bool
is_applied (applied a) = true
is_applied (failed f) = false

module _ (h : Host) (req : Request) (opts : Options) where
  -- The binaries are as they were, and nothing is reported as applied.
  abbrev pub Refused : Disk → Outcome → Disk → Type 0
  Refused d o d' = KeepsBinaries d d' × (is_applied o ≡ false)

  -- What stands behind an installed artifact.
  pub record Vouched (body : Text) (trusted : List PublicKey) : Type 0 where
    pub keys_trusted :
        trusted_keys h.decode h.ed25519_verify h.sha256_hex h.embedded_key h.dev_build
          req.public_keys
        ≡ good trusted
    pub served : h.downloaded req.artifact_url ≡ some body
    pub digest : verify_sha256 h.decode h.ed25519_verify h.sha256_hex body req.sha256 ≡ none
    pub file : Text
    pub file_given : given_signature h req opts ≡ some file
    pub signed : Any (Signs h.decode h.ed25519_verify h.sha256_hex body file) trusted

  check_signature-Refused :
      (target : Text) (trusted : List PublicKey) (body : Text) (sig : Option Text) (d : Disk)
      → Refused d
          (check_signature h req opts target trusted body sig d).0
          (check_signature h req opts target trusted body sig d).1
        ⊎ ((file : Text) × (sig ≡ some file)
            × (verify_any h.decode h.ed25519_verify h.sha256_hex trusted body file ≡ none))
  unfolding check_signature discard
  check_signature-Refused target trusted body none d = inl (ground arith)
  check_signature-Refused target trusted body (some file) d =
      elim (Option-cases (verify_any h.decode h.ed25519_verify h.sha256_hex trusted body file)) [
        | inl e ↦ inr (file, refl, e)
        | inr (x, e) ↦ inl (ground (arith, e))
      ]

  check_artifact-Refused :
      (target : Text) (trusted : List PublicKey) (body : Text) (d : Disk)
      → Refused d
          (check_artifact h req opts target trusted (some body) d).0
          (check_artifact h req opts target trusted (some body) d).1
        ⊎ ((verify_sha256 h.decode h.ed25519_verify h.sha256_hex body req.sha256 ≡ none)
            × ((file : Text) × (given_signature h req opts ≡ some file)
                × (verify_any h.decode h.ed25519_verify h.sha256_hex trusted body file ≡ none)))
  unfolding check_artifact discard
  check_artifact-Refused target trusted body d =
      elim (Option-cases (verify_sha256 h.decode h.ed25519_verify h.sha256_hex body req.sha256)) [
        | inr (x, e) ↦ inl (ground (arith, e))
        | inl e ↦
            elim (check_signature-Refused target trusted body (given_signature h req opts) d) [
              | inl r ↦ inl (ground (arith, e, r))
              | inr f ↦ inr (e, f)
            ]
      ]

  fetch_artifact-Refused :
      (target : Text) (trusted : List PublicKey) (d : Disk)
      → trusted_keys h.decode h.ed25519_verify h.sha256_hex h.embedded_key h.dev_build
          req.public_keys
        ≡ good trusted
      → Refused d
          (fetch_artifact h req opts target trusted (h.downloaded req.artifact_url) d).0
          (fetch_artifact h req opts target trusted (h.downloaded req.artifact_url) d).1
        ⊎ ((body : Text) × Vouched body trusted)
  unfolding fetch_artifact check_artifact discard
  fetch_artifact-Refused target trusted d k = elim (Option-cases (h.downloaded req.artifact_url)) [
    | inl e ↦ inl (ground (arith, e))
    | inr (body, e) ↦ elim (Bool-cases (h.faults Op.read_staged)) [
      | inl f ↦ inl (ground (arith, e, f))
      | inr f ↦
          elim (check_artifact-Refused target trusted body (record d { staged_bin = some body })) [
            | inl r ↦ inl (ground (arith, e, f, r))
            | inr (g, (file, given, v)) ↦ inr (
              body,
              record {
                keys_trusted = k;
                served = e;
                digest = g;
                file = file;
                file_given = given;
                signed = verify_any-none h.decode h.ed25519_verify h.sha256_hex trusted body file v;
              },
            )
          ]
    ]
  ]

  with_target-Refused :
      (target : Option Text) (d : Disk)
      → Refused d (with_target h req opts target d).0 (with_target h req opts target d).1
        ⊎ ((body : Text) × ((trusted : List PublicKey) × Vouched body trusted))
  unfolding with_target
  with_target-Refused none d = inl (ground arith)
  with_target-Refused (some target) d =
      elim (Answer-cases (
        trusted_keys h.decode h.ed25519_verify h.sha256_hex h.embedded_key h.dev_build
          req.public_keys)) [
            | inr (x, e) ↦ inl (ground (arith, e))
            | inl (trusted, e) ↦ elim (fetch_artifact-Refused target trusted d e) [
              | inl r ↦ inl (ground (arith, e, r))
              | inr (body, v) ↦ inr (body, (trusted, v))
            ]
          ]

  apply-Guarded :
      (d : Disk)
      → Refused d (apply h req opts d).0 (apply h req opts d).1
        ⊎ ((is_invalid h req opts ≡ false)
            × ((is_empty opts.current_version ≡ true)
                ⊎ (text_eq req.version opts.current_version ≡ false))
            × ((req.force ≡ true)
                ⊎ ((is_denied h.faults req.version d ≡ false)
                    × (is_finalizing h req opts d ≡ false))))
  unfolding apply
  apply-Guarded d = ground arith

  -- Whatever calls fail: an update either leaves both binaries as they are and reports a failure, or the
  -- request was complete and for another version than the running one; it was forced or neither for a
  -- version that this host rolled back nor over a finalizer that has not reported; and the artifact that
  -- was downloaded has the digest of the request and is signed, in the file that the request gave or named,
  -- by one of the trusted keys.
  pub apply-Vouched :
      (d : Disk)
      → Refused d (apply h req opts d).0 (apply h req opts d).1
        ⊎ ((is_invalid h req opts ≡ false)
            × ((is_empty opts.current_version ≡ true)
                ⊎ (text_eq req.version opts.current_version ≡ false))
            × ((req.force ≡ true)
                ⊎ ((is_denied h.faults req.version d ≡ false)
                    × (is_finalizing h req opts d ≡ false)))
            × ((body : Text) × ((trusted : List PublicKey) × Vouched body trusted)))
  unfolding apply
  apply-Vouched d =
      elim (with_target-Refused
        (if is_empty opts.target_path then h.executable else some opts.target_path) d) [
          | inl r ↦ inl (ground (arith, r))
          | inr v ↦ elim (apply-Guarded d) [ inl r ↦ inl r | inr (a, b, c) ↦ inr (a, b, c, v) ]
        ]
