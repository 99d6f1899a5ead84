-- ===== src/Netcert/Renewal/Kept.antt =====
-- What a renewal of agent/internal/netcert leaves of the material that the device had.
use everwas.Base.{ap}
use everwas.Base.{
  ◌≡◌, refl, ℕ, Bool, true, false, Option, none, some, inl, inr, ◌⊎◌, arith, Bool-cases,
}
use everwas.Base.Text.{Text}
use everwas.Netcert.Phase.{Material, due_for_renewal}
use everwas.Netcert.Renewal.{
  CertOp, CertDisk, EnsureError, other_error, Answer, request, Loaded, holds, unreadable,
  write_key_file, save_parsed, save, save_all, load, installed, renew_answered, renew, renew_loaded,
  ensure,
}

module _ (parse : Text → Option Material) (faults : CertOp → Bool) where
  -- What a call of Ensure shows: it found a certificate that is not due; or it installed a matched key,
  -- certificate and chain; or it failed and left every file alone; or the server had issued a certificate
  -- that could not be installed.
  abbrev pub Kept :
      Option Text
      → Answer
      → ℕ
      → CertDisk
      → (Option Material × Option EnsureError) × CertDisk
      → Type 0
  Kept key answer now d ((m, e), d') =
      ((e ≡ none)
        × (d' ≡ d)
        × ((old : Material) × ((load parse faults d ≡ holds (some old))
              × (m ≡ some old)
              × (due_for_renewal now (some old) ≡ false))))
      ⊎ (((e ≡ none)
            × ((k : Text) × ((cert : Text) × ((chain : Text) × ((new : Material) × ((key ≡ some k)
                        × (request answer ≡ inr (cert, chain))
                        × (parse cert ≡ some new)
                        × (m ≡ some (record new { issued = true }))
                        × (d'.key_file ≡ some k)
                        × (d'.cert_file ≡ some cert)
                        × (d'.chain_file ≡ some chain)))))))
          ⊎ ((((x : EnsureError) × (e ≡ some x)) × (d' ≡ d))
              ⊎ ((m ≡ none)
                  × (e ≡ some other_error)
                  × ((got : Text × Text) × (request answer ≡ inr got)))))

  save_parsed-all :
      (key cert chain : Text) (d : CertDisk) (o : Option Material) (m : Material)
      → (write_key_file parse faults key d).0 ≡ true
      → (save_parsed parse faults o cert chain (write_key_file parse faults key d).1).0 ≡ some m
      → let d' = (save_parsed parse faults o cert chain (write_key_file parse faults key d).1).1 in
        (o ≡ some m)
        × (d'.key_file ≡ some key)
        × (d'.cert_file ≡ some cert)
        × (d'.chain_file ≡ some chain)
  unfolding write_key_file
  save_parsed-all key cert chain d none m w h = absurd (ground (arith, h))
  save_parsed-all key cert chain d (some new) m w h = ground (arith, w, h)

  save_all-all :
      (key cert chain : Text) (d d' : CertDisk) (m : Material)
      → save_all parse faults key cert chain d ≡ (some m, d')
      → (parse cert ≡ some m)
        × (d'.key_file ≡ some key)
        × (d'.cert_file ≡ some cert)
        × (d'.chain_file ≡ some chain)
  unfolding save_all save
  save_all-all key cert chain d d' m h = elim (Bool-cases (faults CertOp.mkdir)) [
    | inl q ↦ absurd (ground (arith, q, h))
    | inr q ↦ elim (Bool-cases (write_key_file parse faults key d).0) [
      | inr w ↦ absurd (ground (arith, q, w, h))
      | inl w ↦
          let out =
            save_parsed parse faults (parse cert) cert chain
              (write_key_file parse faults key d).1 in
          let same : out ≡ (some m, d') = ground (arith, q, w, h) in
          let all = save_parsed-all key cert chain d (parse cert) m w (ap (λ r. r.0) same) in
          ground (arith, all, same)
    ]
  ]

  installed-Kept :
      (key cert chain : Text) (answer : Answer) (now : ℕ) (d : CertDisk)
      (r : Option Material × CertDisk)
      → request answer ≡ inr (cert, chain)
      → save_all parse faults key cert chain d ≡ r
      → Kept (some key) answer now d (installed parse faults r)
  installed-Kept key cert chain answer now d (none, d') a s =
      inr (inr (inr (refl, refl, ((cert, chain), a))))
  installed-Kept key cert chain answer now d (some m, d') a s =
      let all = save_all-all key cert chain d d' m s in
      inr (inl (refl, (key, (cert, (chain, (m, (refl, a, all.0, refl, all.1, all.2, all.3)))))))

  renew_answered-Kept :
      (key : Text) (answer : Answer) (now : ℕ) (existing : Option Material) (d : CertDisk)
      (x : EnsureError ⊎ (Text × Text))
      → request answer ≡ x
      → Kept (some key) answer now d (renew_answered parse faults key x existing d)
  renew_answered-Kept key answer now existing d (inl e) a = inr (inr (inl ((e, refl), refl)))
  renew_answered-Kept key answer now existing d (inr (cert, chain)) a =
      installed-Kept key cert chain answer now d (save_all parse faults key cert chain d) a refl

  renew-Kept :
      (key : Option Text) (csr : Bool) (answer : Answer) (now : ℕ) (existing : Option Material)
      (d : CertDisk)
      → Kept key answer now d (renew parse faults key csr answer existing d)
  unfolding renew
  renew-Kept none csr answer now existing d = inr (inr (inl ((other_error, refl), refl)))
  renew-Kept (some key) true answer now existing d =
      renew_answered-Kept key answer now existing d (request answer) refl
  renew-Kept (some key) false answer now existing d = inr (inr (inl ((other_error, refl), refl)))

  loaded-Kept :
      (key : Option Text) (csr : Bool) (answer : Answer) (now : ℕ) (d : CertDisk) (l : Loaded)
      → load parse faults d ≡ l
      → Kept key answer now d (renew_loaded parse faults key csr answer now l d)
  loaded-Kept key csr answer now d unreadable q = inr (inr (inl ((other_error, refl), refl)))
  loaded-Kept key csr answer now d (holds none) q = renew-Kept key csr answer now none d
  loaded-Kept key csr answer now d (holds (some old)) q =
      elim (Bool-cases (due_for_renewal now (some old))) [
        | inl c ↦ rw c (renew-Kept key csr answer now (some old) d)
        | inr c ↦ rw c (inl (refl, refl, (old, (q, refl, c))))
      ]

  -- Whatever the server answers and whatever calls fail: a call of Ensure that reports no error either found
  -- a certificate that is not due, and changed nothing, or it wrote the new key with the certificate and the
  -- chain that the server sent for it, and reports that certificate as issued; one that reports an error
  -- changed nothing, unless the server had sent a certificate, and then it reports nothing held.
  pub ensure_lem :
      (key : Option Text) (csr : Bool) (answer : Answer) (now : ℕ) (d : CertDisk)
      → Kept key answer now d (ensure parse faults key csr answer now d)
  unfolding ensure
  ensure_lem key csr answer now d = loaded-Kept key csr answer now d (load parse faults d) refl

  -- A certificate on disk that does not parse is never replaced: whatever the server answers, every call
  -- reports an error, holds nothing and leaves every file as it is.
  pub ensure-corrupt :
      (key : Option Text) (csr : Bool) (answer : Answer) (now : ℕ) (d : CertDisk) (cert : Text)
      → d.cert_file ≡ some cert
      → parse cert ≡ none
      → ensure parse faults key csr answer now d ≡ ((none, some other_error), d)
  unfolding ensure load
  ensure-corrupt key csr answer now d cert h p = elim (Bool-cases (faults CertOp.read_cert)) [
    | inl q ↦ rw (h, q) refl
    | inr q ↦ rw (h, q, p) refl
  ]

  -- A renewal whose certificate does not parse has already replaced the key, and leaves the old certificate:
  -- the device had a pair that was due, and has a new key with a certificate for the old one.
  pub ensure-mismatch :
      (k cert chain : Text) (answer : Answer) (now : ℕ) (d : CertDisk) (old : Material)
      → load parse faults d ≡ holds (some old)
      → due_for_renewal now (some old) ≡ true
      → request answer ≡ inr (cert, chain)
      → parse cert ≡ none
      → ((op : CertOp) → faults op ≡ false)
      → let d' = (ensure parse faults (some k) true answer now d).1 in
        (d'.key_file ≡ some k) × (d'.cert_file ≡ d.cert_file)
  unfolding ensure renew save_all save write_key_file
  ensure-mismatch k cert chain answer now d old l due a p ok =
      rw
        (l, due, a, p, ok CertOp.mkdir, ok CertOp.open_key, ok CertOp.write_key, ok CertOp.sync_key)
        (refl, refl)
