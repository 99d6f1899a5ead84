-- ===== src/Update/Download/Resume.antt =====
-- Downloads of agent/internal/update/download.go that are interrupted and taken up again.
use everwas.Base.{
  ℕ, ◌+◌, ◌-◌, ◌≤◌, ◌≡◌, refl, sym, ◌∙◌, ap, Bool, true, false, not, ◌&&◌, none, some, [], ◌∷◌,
  ◌++◌, if◌then◌else◌, length, take, drop, ltb, leb, take_all, length-take, Bool-cases, inl, inr,
  ◌⊎◌, arith, ◌==◌, append_assoc, take-append-drop,
}
use mathlib.Core.Path.{subst}
use everwas.Base.Text.{Text}
use everwas.Update.State.{is_empty}
use everwas.Update.Download.{
  DownloadOp, Staging, Reply, no_reply, replied, Fetched, fetched, not_fetched, content, drop_part,
  kept_part, cleaned, receive, respond, download, is_https,
}

-- It is the first bytes of the artifact.
abbrev pub IsPrefix : Text → Text → Type 0
IsPrefix a p = (rest : Text) × (a ≡ p ++ rest)

-- A reply to a request from an offset on: what arrived is the first bytes of the artifact from there on, or
-- from the start where the whole was sent; and it is all of it unless the transfer broke.
abbrev pub Serves : Text → ℕ → Reply → Type 0
Serves a n no_reply = Unit {0}
Serves a n (replied status body broken) =
    let rest = drop (if status == 206 then n else 0) a in
    IsPrefix rest body × ((broken ≡ true) ⊎ (body ≡ rest))

-- What a call leaves: the part is a beginning of the artifact; and the file at the destination is the one
-- that was there, or the artifact, and the artifact where the call succeeded.
abbrev pub Leaves : Text → Staging → Fetched × Staging → Type 0
Leaves a d (r, d') =
    IsPrefix a (content d'.part)
    × ((d'.dest ≡ d.dest) ⊎ (d'.dest ≡ some a))
    × elim r [ fetched n ↦ (d'.dest ≡ some a) × (n ≡ length a) | not_fetched e ↦ Unit {0} ]

drop-length : (xs ys : Text) → drop (length xs) (xs ++ ys) ≡ ys
drop-length [] ys = refl
drop-length (x ∷ xs) ys = drop-length xs ys

module _ (max : ℕ) (faults : DownloadOp → Bool) (a : Text) where
  nothing-IsPrefix : IsPrefix a []
  nothing-IsPrefix = (a, refl)

  drop_part-IsPrefix :
      (d : Staging)
      → IsPrefix a (content d.part)
      → IsPrefix a (content (drop_part max faults d).part)
  unfolding drop_part
  drop_part-IsPrefix d p = elim (Bool-cases (faults DownloadOp.remove_part)) [
    | inl q ↦ rw q p
    | inr q ↦ rw q nothing-IsPrefix
  ]

  drop_part-dest : (d : Staging) → (drop_part max faults d).dest ≡ d.dest
  unfolding drop_part
  drop_part-dest d = ground arith

  -- What is received from an offset on, with what was there before.
  joined-IsPrefix :
      (base body : Text) (m : ℕ)
      → IsPrefix a base
      → IsPrefix (drop (length base) a) body
      → IsPrefix a (base ++ take m body)
  joined-IsPrefix base body m (r, p) (s, q) =
      let rest : drop (length base) a ≡ r = ap (λ t. drop (length base) t) p ∙ drop-length base r in
      let r_eq : r ≡ (take m body ++ drop m body) ++ s =
        sym rest ∙ (q ∙ ap (λ t. t ++ s) (sym (take-append-drop m body))) in
      (
        drop m body ++ s,
        p
            ∙ (ap (λ t. base ++ t) (r_eq ∙ append_assoc (take m body) (drop m body) s)
                ∙ sym (append_assoc base (take m body) (drop m body ++ s))),
      )

  pub joined-whole :
      (base body : Text) (m : ℕ)
      → IsPrefix a base
      → body ≡ drop (length base) a
      → length body ≤ m
      → base ++ take m body ≡ a
  joined-whole base body m (r, p) q l =
      let rest : drop (length base) a ≡ r = ap (λ t. drop (length base) t) p ∙ drop-length base r in
      ap (λ t. base ++ t) (take_all m body l ∙ (q ∙ rest)) ∙ sym p

  Leaves-eq : (d : Staging) (x y : Fetched × Staging) → x ≡ y → Leaves a d y → Leaves a d x
  Leaves-eq d x y e l = subst (λ o. Leaves a d o) (sym e) l

  -- The tests of `receive`, in order.
  receive-Leaves :
      (base body : Text) (broken : Bool) (d : Staging)
      → IsPrefix a (content d.part)
      → IsPrefix a base
      → IsPrefix (drop (length base) a) body
      → (broken ≡ true) ⊎ (body ≡ drop (length base) a)
      → Leaves a d (receive max faults base body broken d)
  unfolding receive
  receive-Leaves base body broken d p b q w =
      let remaining = max - length base in
      let all = base ++ take (remaining + 1) body in
      let joined = joined-IsPrefix base body (remaining + 1) b q in
      elim (Bool-cases (faults DownloadOp.open_part)) [
        | inl o ↦ rw o (p, inl refl, tt)
        | inr o ↦ elim (Bool-cases (broken && leb (length body) remaining)) [
          | inl c ↦ rw (o, c) (joined, inl refl, tt)
          | inr c ↦ elim (Bool-cases (faults DownloadOp.close_part)) [
            | inl k ↦ rw (o, c, k) (joined, inl refl, tt)
            | inr k ↦ elim (Bool-cases (ltb remaining (length (take (remaining + 1) body)))) [
              | inl l ↦
                  rw (o, c, k, l)
                    (
                      drop_part-IsPrefix (record d { part = some all }) joined,
                      inl (drop_part-dest (record d { part = some all })),
                      tt,
                    )
              | inr l ↦ elim (Bool-cases (is_empty all)) [
                | inl e ↦
                    rw (o, c, k, l, e)
                      (
                        drop_part-IsPrefix (record d { part = some all }) joined,
                        inl (drop_part-dest (record d { part = some all })),
                        tt,
                      )
                | inr e ↦ elim (Bool-cases (faults DownloadOp.rename_part)) [
                  | inl r ↦ rw (o, c, k, l, e, r) (joined, inl refl, tt)
                  | inr r ↦
                      let short : length body ≤ remaining =
                        ground (arith, l, length-take (remaining + 1) body) in
                      let whole : all ≡ a = elim w [
                        | inl x ↦ absurd (ground (arith, c, x, short))
                        | inr x ↦ joined-whole base body (remaining + 1) b x (omega (arith, short))
                      ] in
                      elim (Bool-cases (faults DownloadOp.chmod_dest)) [
                        | inl m ↦
                            rw (o, c, k, l, e, r, m) (nothing-IsPrefix, inr (ap some whole), tt)
                        | inr m ↦
                            Leaves-eq d (receive max faults base body broken d)
                              (fetched (length all), record d { part = none; dest = some all })
                              (rw (o, c, k, l, e, r, m) refl)
                              (
                                nothing-IsPrefix,
                                inr (ap some whole),
                                (ap some whole, ap (λ t. length t) whole),
                              )
                      ]
                ]
              ]
            ]
          ]
        ]
      ]

  respond-Leaves :
      (kept : Text) (reply : Reply) (d : Staging)
      → IsPrefix a (content d.part)
      → IsPrefix a kept
      → Serves a (length kept) reply
      → Leaves a d (respond max faults kept reply d)
  unfolding respond
  respond-Leaves kept no_reply d p b s = (p, inl refl, tt)
  respond-Leaves kept (replied status body broken) d p b s = elim (Bool-cases (status == 200)) [
    | inl q ↦
        let other : (status == 206) ≡ false = ground (arith, q) in
        let s' = rw other at s in
        Leaves-eq d (respond max faults kept (replied status body broken) d)
          (receive max faults [] body broken d) (rw q refl)
          (receive-Leaves [] body broken d p nothing-IsPrefix s'.0 s'.1)
    | inr q ↦ elim (Bool-cases (status == 206)) [
      | inl r ↦
          Leaves-eq d (respond max faults kept (replied status body broken) d)
            (receive max faults kept body broken d) (rw (q, r) refl)
            (receive-Leaves kept body broken d p b (rw r at s).0 (rw r at s).1)
      | inr r ↦ elim (Bool-cases (status == 416)) [
        | inl x ↦ rw (q, r, x) (drop_part-IsPrefix d p, inl (drop_part-dest d), tt)
        | inr x ↦ rw (q, r, x) (p, inl refl, tt)
      ]
    ]
  ]

  pub kept_part-IsPrefix :
      (d : Staging) → IsPrefix a (content d.part) → IsPrefix a (kept_part max faults d)
  unfolding kept_part
  kept_part-IsPrefix d p = elim (Bool-cases (faults DownloadOp.stat_part)) [
    | inl q ↦ rw q nothing-IsPrefix
    | inr q ↦ elim (Bool-cases (ltb max (length (content d.part)))) [
      | inl l ↦ rw (q, l) nothing-IsPrefix
      | inr l ↦ rw (q, l) p
    ]
  ]

  cleaned-IsPrefix :
      (d : Staging)
      → IsPrefix a (content d.part)
      → IsPrefix a (content (cleaned max faults d).part) × ((cleaned max faults d).dest ≡ d.dest)
  unfolding cleaned
  cleaned-IsPrefix d p = elim (Bool-cases (faults DownloadOp.stat_part)) [
    | inl q ↦ rw q (p, refl)
    | inr q ↦ elim (Bool-cases (ltb max (length (content d.part)))) [
      | inl l ↦ rw (q, l) (drop_part-IsPrefix d p, drop_part-dest d)
      | inr l ↦ rw (q, l) (p, refl)
    ]
  ]

  -- The file that was there before the part was cleaned up is the same.
  Leaves-before :
      (d d' : Staging) (out : Fetched × Staging)
      → d'.dest ≡ d.dest
      → Leaves a d' out
      → Leaves a d out
  Leaves-before d d' out e (p, x, r) = (p, rw⁻¹ e x, r)

  pub download-Leaves :
      (allow_insecure : Bool) (url : Text) (server : ℕ → Reply) (d : Staging)
      → IsPrefix a (content d.part)
      → ((n : ℕ) → Serves a n (server n))
      → Leaves a d (download max faults allow_insecure url server d)
  unfolding download
  download-Leaves allow_insecure url server d p s =
      let kept = kept_part max faults d in
      let clean = cleaned-IsPrefix d p in
      elim (Bool-cases (not allow_insecure && not (is_https url))) [
        | inl q ↦ rw q (p, inl refl, tt)
        | inr q ↦ elim (Bool-cases (faults DownloadOp.make_dir)) [
          | inl m ↦ rw (q, m) (p, inl refl, tt)
          | inr m ↦
              let out = respond max faults kept (server (length kept)) (cleaned max faults d) in
              Leaves-eq d (download max faults allow_insecure url server d) out (rw (q, m) refl) (
                Leaves-before d (cleaned max faults d) out clean.1 (
                  respond-Leaves kept (server (length kept)) (cleaned max faults d) clean.0
                    (kept_part-IsPrefix d p) (s (length kept))))
        ]
      ]
