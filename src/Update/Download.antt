-- ===== src/Update/Download.antt =====
-- agent/internal/update/download.go. The HTTP client is a function of the offset that the request asks for, 0
-- where it has no Range header; files are their bytes.
pub mod Resume
pub mod Retry
mod Tests
use everwas.Base.{
  ℕ, zero, suc, ◌+◌, ◌-◌, ◌*◌, Bool, true, false, not, ◌&&◌, ◌||◌, Option, none, some, List, [],
  ◌∷◌, ◌++◌, if◌then◌else◌, length, take, ltb, leb, ◌==◌,
}
use everwas.Base.Text.{Text, codes, to_lower, has_prefix, member}
use everwas.Update.State.{is_empty}

-- 256 MiB.
abbrev pub default_max_bytes : ℕ
default_max_bytes = 268435456

unfoldable pub max_bytes : ℕ → ℕ
max_bytes n = if ltb 0 n then n else default_max_bytes

pub data DownloadError : Type 0 where
  not_https too_large bad_status empty_result : DownloadError
  staging_dir no_answer stale open_failed cut_short close_failed rename_failed chmod_failed :
      DownloadError

pub data DownloadOp : Type 0 where
  make_dir stat_part remove_part open_part close_part rename_part chmod_dest : DownloadOp

-- `dest` and `dest.part`.
pub record Staging : Type 0 where
  pub part : Option Text
  pub dest : Option Text

-- No answer, or a status, the bytes of the body that arrived, and whether the transfer broke after them.
pub data Reply : Type 0 where
  no_reply : Reply
  replied : ℕ → Text → Bool → Reply

pub data Fetched : Type 0 where
  fetched : ℕ → Fetched
  not_fetched : DownloadError → Fetched

unfoldable pub is_https : Text → Bool
unfolding has_prefix
is_https url = has_prefix (to_lower url) (codes "https://")

-- An ASCII version; another rune is one underscore.
abbrev pub is_kept : ℕ → Bool
is_kept c =
    (leb 48 c && leb c 57)
    || ((leb 97 c && leb c 122)
        || ((leb 65 c && leb c 90) || (c == 46 || (c == 45 || (c == 95 || c == 43)))))

unfoldable pub keep_codes : Text → Text
keep_codes [] = []
keep_codes (c ∷ cs) = (if is_kept c then c else 95) ∷ keep_codes cs

unfoldable pub sanitize_version : Text → Text
unfolding keep_codes
sanitize_version v =
    if is_empty v
    then codes "unknown"
    else if ltb 64 (length (keep_codes v))
    then take 64 (keep_codes v)
    else keep_codes v

abbrev pub content : Option Text → Text
content none = []
content (some p) = p

module _ (max : ℕ) (faults : DownloadOp → Bool) where
  unfoldable pub drop_part : Staging → Staging
  drop_part d = if faults remove_part then d else record d { part = none }

  -- The bytes to go on from: what a partial download left, unless it is over the cap.
  unfoldable pub kept_part : Staging → Text
  kept_part d =
      if faults stat_part
      then []
      else if ltb max (length (content d.part))
      then []
      else content d.part

  unfoldable pub cleaned : Staging → Staging
  unfolding drop_part
  cleaned d =
      if faults stat_part then d else if ltb max (length (content d.part)) then drop_part d else d

  -- From the open of the part file on; `base` is what it goes on from.
  unfoldable pub receive : Text → Text → Bool → Staging → Fetched × Staging
  unfolding drop_part
  receive base body broken d =
      let remaining = max - length base in
      let got = take (remaining + 1) body in
      let all = base ++ got in
      let written : Staging = record d { part = some all } in
      if faults open_part
      then (not_fetched open_failed, d)
      else if broken && leb (length body) remaining
      then (not_fetched cut_short, written)
      else if faults close_part
      then (not_fetched close_failed, written)
      else if ltb remaining (length got)
      then (not_fetched too_large, drop_part written)
      else if is_empty all
      then (not_fetched empty_result, drop_part written)
      else if faults rename_part
      then (not_fetched rename_failed, written)
      else (
        if faults chmod_dest then not_fetched chmod_failed else fetched (length all),
        record d { part = none; dest = some all },
      )

  unfoldable pub respond : Text → Reply → Staging → Fetched × Staging
  unfolding receive drop_part
  respond kept no_reply d = (not_fetched no_answer, d)
  respond kept (replied status body broken) d =
      if status == 200
      then receive [] body broken d
      else if status == 206
      then receive kept body broken d
      else if status == 416
      then (not_fetched stale, drop_part d)
      else (not_fetched bad_status, d)

  unfoldable pub download : Bool → Text → (ℕ → Reply) → Staging → Fetched × Staging
  unfolding is_https kept_part cleaned respond
  download allow_insecure url server d =
      let kept = kept_part d in
      let d' = cleaned d in
      if not allow_insecure && not (is_https url)
      then (not_fetched not_https, d)
      else if faults make_dir
      then (not_fetched staging_dir, d)
      else respond kept (server (length kept)) d'

-- A companion file, in memory.
unfoldable pub fetch : ℕ → Bool → Text → Reply → Option Text
unfolding is_https
fetch max allow_insecure url no_reply = none
fetch max allow_insecure url (replied status body broken) =
    let got = take (max + 1) body in
    if not allow_insecure && not (is_https url)
    then none
    else if not (status == 200)
    then none
    else if broken && leb (length body) max
    then none
    else if ltb max (length got)
    then none
    else some got

-- The entries of the staging directory that CleanStaging leaves: a name, and whether it is a directory.
-- `keep` are the base names of the files to keep, and `stays` the files that cannot be removed.
unfoldable pub clean_staging : (Text → Bool) → List Text → List (Text × Bool) → List (Text × Bool)
unfolding member
clean_staging stays keep [] = []
clean_staging stays keep (e ∷ es) =
    let rest = clean_staging stays keep es in
    if e.1 || (not (is_empty e.0) && member e.0 keep)
    then e ∷ rest
    else if stays e.0
    then e ∷ rest
    else rest
