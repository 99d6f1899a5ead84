-- ===== src/Update/Download/Retry.antt =====
-- Calls of agent/internal/update/download.go until one succeeds.
use everwas.Base.{is_some}
use everwas.Base.{
  ℕ, ◌≡◌, refl, ◌∙◌, Bool, true, false, Option, none, some, List, [], ◌∷◌, length, drop, Each, inl,
  inr, ◌⊎◌,
}
use everwas.Base.Text.{Text}
use everwas.Update.Download.{
  DownloadOp, Staging, Reply, replied, Fetched, fetched, not_fetched, content, download,
}
use everwas.Base.{is_some}
use everwas.Update.Download.Resume.{IsPrefix, Serves, Leaves, download-Leaves}

-- One call: its reply at each offset, and the calls of the system that fail.
pub record Attempt : Type 0 where
  pub faults : DownloadOp → Bool
  pub server : ℕ → Reply

-- Calls until one succeeds: the size, and what is left.
pub download_all : ℕ → Text → List Attempt → Staging → Option ℕ × Staging
download_all max url [] d = (none, d)
download_all max url (t ∷ ts) d =
    let out = download max t.faults false url t.server d in
    let rest = download_all max url ts out.1 in
    elim out.0 [ fetched n ↦ (some n, out.1) | not_fetched e ↦ rest ]

-- An attempt in which nothing goes wrong.
abbrev pub IsClean : Text → Attempt → Type 0
IsClean a t =
    ((op : DownloadOp) → t.faults op ≡ false)
    × ((n : ℕ) → (t.server n ≡ replied 206 (drop n a) false) ⊎ (t.server n ≡ replied 200 a false))

abbrev is_fetched : Fetched → Bool
is_fetched (fetched n) = true
is_fetched (not_fetched e) = false

module _ (max : ℕ) (url : Text) (a : Text) where
  -- The results of calls until one succeeds.
  abbrev pub Arrives : Staging → Option ℕ × Staging → Type 0
  Arrives d (none, d') = IsPrefix a (content d'.part) × ((d'.dest ≡ d.dest) ⊎ (d'.dest ≡ some a))
  Arrives d (some n, d') = (n ≡ length a) × (d'.dest ≡ some a)

  -- One call and those after it.
  next-Arrives :
      (d : Staging) (out : Fetched × Staging) (rest : Option ℕ × Staging)
      → Leaves a d out
      → Arrives out.1 rest
      → Arrives d (elim out.0 [ fetched n ↦ (some n, out.1) | not_fetched e ↦ rest ])
  next-Arrives d (fetched n, d') rest l r = (l.2.1, l.2.0)
  next-Arrives d (not_fetched e, d') (some n, d2) l r = r
  next-Arrives d (not_fetched e, d') (none, d2) (p, inl same, u) (q, inl still) =
      (q, inl (still ∙ same))
  next-Arrives d (not_fetched e, d') (none, d2) (p, inr came, u) (q, inl still) =
      (q, inr (still ∙ came))
  next-Arrives d (not_fetched e, d') (none, d2) l (q, inr came) = (q, inr came)

  -- Whatever calls of the system fail and wherever the transfers break, as long as the server sends the
  -- artifact from the offset that it was asked for or from its start: calls that go on from what the ones
  -- before left give the artifact, byte for byte, and its length, as soon as one succeeds; until then the
  -- part file is a beginning of the artifact and the destination is as it was, or the artifact.
  pub download_resumes :
      (ts : List Attempt) (d : Staging)
      → IsPrefix a (content d.part)
      → Each (λ t. (n : ℕ) → Serves a n (t.server n)) ts
      → Arrives d (download_all max url ts d)
  unfolding download_all
  download_resumes [] d p s = (p, inl refl)
  download_resumes (t ∷ ts) d p s =
      let out = download max t.faults false url t.server d in
      let here = download-Leaves max t.faults a false url t.server d p s.0 in
      next-Arrives d out (download_all max url ts out.1) here (download_resumes ts out.1 here.0 s.1)
