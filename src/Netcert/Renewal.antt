-- ===== src/Netcert/Renewal.antt =====
-- The renewal of agent/internal/netcert on Unix: saveAll, Save and Load of netcert.go, Request and ensure of
-- request.go. Discarding a key that is only in memory does nothing. `parse` is parseCert with the times and
-- the serial of the certificate.
pub mod Kept
mod Tests
use everwas.Base.{
  ℕ, Bool, true, false, not, ◌||◌, ◌&&◌, Option, none, some, List, [], ◌∷◌, if◌then◌else◌, ◌==◌,
  ◌⊎◌, inl, inr, is_some,
}
use everwas.Base.Text.{Text}
use everwas.Update.State.{is_empty}
use everwas.Netcert.Phase.{Material, due_for_renewal}

pub data CertOp : Type 0 where
  mkdir open_key write_key sync_key : CertOp
  open_chain write_chain open_cert write_cert read_cert : CertOp

-- The three files of the directory.
pub record CertDisk : Type 0 where
  pub key_file : Option Text
  pub cert_file : Option Text
  pub chain_file : Option Text

-- What Ensure reports: the server has no CA, the context was cancelled, or another error.
pub data EnsureError : Type 0 where
  not_configured canceled other_error : EnsureError

-- What the HTTP client returns: an error, or a status and the decoded body, if it can be decoded.
pub data Answer : Type 0 where
  no_answer : EnsureError → Answer
  answered : ℕ → Option (Text × Text) → Answer

-- The certificate and the chain.
unfoldable pub request : Answer → EnsureError ⊎ (Text × Text)
request (no_answer e) = inl e
request (answered status body) =
    if status == 503
    then inl not_configured
    else if not (status == 200)
    then inl other_error
    else elim body [
      | none ↦ inl other_error
      | some (cert, chain) ↦
          if is_empty cert || is_empty chain then inl other_error else inr (cert, chain)
    ]

-- What there was to load.
pub data Loaded : Type 0 where
  holds : Option Material → Loaded
  unreadable : Loaded

module _ (parse : Text → Option Material) (faults : CertOp → Bool) where
  -- What a write leaves of a file, and whether it succeeded. A file that was opened is empty until it is
  -- written.
  abbrev pub write_file : CertOp → CertOp → Text → Option Text → Bool × Option Text
  write_file open_op write_op content old =
      if faults open_op
      then (false, old)
      else if faults write_op
      then (false, some [])
      else (true, some content)

  unfoldable pub write_key_file : Text → CertDisk → Bool × CertDisk
  write_key_file key d =
      let (written, file) = write_file open_key write_key key d.key_file in
      (written && not (faults sync_key), record d { key_file = file })

  abbrev pub save_parsed : Option Material → Text → Text → CertDisk → Option Material × CertDisk
  save_parsed none cert chain d = (none, d)
  save_parsed (some m) cert chain d =
      let (chained, chain_file) = write_file open_chain write_chain chain d.chain_file in
      let (certified, cert_file) = write_file open_cert write_cert cert d.cert_file in
      let d' : CertDisk = record d { chain_file = chain_file } in
      if not chained
      then (none, d')
      else (if certified then some m else none, record d' { cert_file = cert_file })

  unfoldable pub save : Text → Text → CertDisk → Option Material × CertDisk
  save cert chain d = save_parsed (parse cert) cert chain d

  unfoldable pub save_all : Text → Text → Text → CertDisk → Option Material × CertDisk
  unfolding write_key_file save
  save_all key cert chain d =
      let (written, d') = write_key_file key d in
      if faults CertOp.mkdir
      then (none, d)
      else if not written
      then (none, d')
      else save cert chain d'

  unfoldable pub load : CertDisk → Loaded
  load d = elim d.cert_file [
    | none ↦ holds none
    | some cert ↦
        if faults read_cert
        then unreadable
        else elim (parse cert) [ none ↦ unreadable | some m ↦ holds (some m) ]
  ]

  abbrev pub installed :
      Option Material × CertDisk → (Option Material × Option EnsureError) × CertDisk
  installed (none, d) = ((none, some other_error), d)
  installed (some m, d) = ((some (record m { issued = true }), none), d)

  abbrev pub renew_answered :
      Text
      → EnsureError ⊎ (Text × Text)
      → Option Material
      → CertDisk
      → (Option Material × Option EnsureError) × CertDisk
  renew_answered key (inl e) existing d = ((existing, some e), d)
  renew_answered key (inr (cert, chain)) existing d = installed (save_all key cert chain d)

  -- `key` is the new key, if it could be made, and `csr` whether the request could be built.
  unfoldable pub renew :
      Option Text
      → Bool
      → Answer
      → Option Material
      → CertDisk
      → (Option Material × Option EnsureError) × CertDisk
  unfolding save_all request
  renew none csr answer existing d = ((none, some other_error), d)
  renew (some key) csr answer existing d =
      if csr then renew_answered key (request answer) existing d else ((none, some other_error), d)

  abbrev pub renew_loaded :
      Option Text
      → Bool
      → Answer
      → ℕ
      → Loaded
      → CertDisk
      → (Option Material × Option EnsureError) × CertDisk
  renew_loaded key csr answer now unreadable d = ((none, some other_error), d)
  renew_loaded key csr answer now (holds none) d = renew key csr answer none d
  renew_loaded key csr answer now (holds (some m)) d =
      if due_for_renewal now (some m) then renew key csr answer (some m) d else ((some m, none), d)

  unfoldable pub ensure :
      Option Text → Bool → Answer → ℕ → CertDisk → (Option Material × Option EnsureError) × CertDisk
  unfolding load renew
  ensure key csr answer now d = renew_loaded key csr answer now (load d) d
