-- ===== src/Jobs/Patch.antt =====
-- agent/internal/jobs/patch_wire.go: the jobs that scan for updates and install them. The package manager,
-- the decoder of JSON and the refresh of the inventory are parameters.
pub mod Handlers
pub mod Ends
use everwas.Base.{
  ℕ, zero, suc, ◌+◌, ◌*◌, ◌≡◌, Bool, true, false, ◌||◌, Option, none, some, List, [], ◌∷◌, ◌++◌,
  map, if◌then◌else◌, length, ltb, ◌==◌, ◌⊎◌, inl, inr,
}
use everwas.Base.Int.{ℤ, pos, negsuc, seconds, second, ltb_ℤ}
use everwas.Base.Text.{Text, codes, text_eq, trim_space, split, join_texts, sort_texts}
use everwas.Base.Decimal.{show_ℕ}
use everwas.Scripts.Job.{
  JobSpec, Result, Status, bare, succeeded, failed, timeout, cancelled, minus_one, max_timeout,
}
use everwas.Scripts.Runner.{Note, note, note_status, phase_started, phase_running, phase_finished}
use everwas.Jobs.Failure.{Failure}
use everwas.Jobs.Effects.{
  JobEffect, says, sends, stderr_then, after, emits, refreshes_patch_state, installs, patch_scanned,
  patch_installed,
}

abbrev pub kind_patch_scan : Text
kind_patch_scan = codes "patch.scan"

abbrev pub kind_patch_install : Text
kind_patch_install = codes "patch.install"

abbrev pub exit_busy : ℕ
exit_busy = 75

abbrev pub default_scan_timeout : ℤ
default_scan_timeout = pos (1800 * second)

abbrev pub default_install_timeout : ℤ
default_install_timeout = pos (14400 * second)

unfoldable pub patch_job_timeout : JobSpec → ℤ
patch_job_timeout spec =
    let d = seconds spec.timeout_s in
    if ltb_ℤ (pos 0) spec.timeout_s
    then if ltb_ℤ d max_timeout then d else max_timeout
    else if text_eq spec.kind kind_patch_install
    then default_install_timeout
    else default_scan_timeout

-- `failures` is the map `Failed`.
pub record InstallResult : Type 0 where
  pub installed : List Text
  pub failures : List (Text × Text)
  pub reboot_required : Bool

abbrev pub nothing_installed : InstallResult
nothing_installed = record { installed = []; failures = []; reboot_required = false }

pub record PatchInfo : Type 0 where
  pub kind : Text
  pub unsupported : Bool

pub record PatchState : Type 0 where
  pub backend : Text
  pub patches : List PatchInfo
  pub reboot_required : Bool

pub record InstallProgress : Type 0 where
  pub phase : Text
  pub update_id : Text
  pub pct : ℕ

-- What an installation reports while it runs, its result and its error.
pub record Installation : Type 0 where
  pub steps : List InstallProgress
  pub result : InstallResult
  pub failure : Option Failure

-- A nil function is `none`.
pub record PatchDeps : Type 0 where
  pub manager : Option (Failure ⊎ (List Text → Installation))
  pub refresh_patch_state : Option (PatchState × Option Failure)

unfoldable pub patch_result : Option Failure → ℕ → Result
patch_result (some e) failures =
    if e.is_busy
    then bare failed (pos exit_busy)
    else if e.is_deadline
    then bare timeout minus_one
    else if e.is_cancelled
    then bare cancelled minus_one
    else bare failed minus_one
patch_result none failures =
    if ltb 0 failures then bare failed (pos failures) else bare succeeded (pos 0)

-- What `json.Unmarshal` makes of an object and of an array; `none` is an error.
pub record Json : Type 0 where
  pub object_lists : Text → Option (List Text × (List Text × List Text))
  pub string_array : Text → Option (List Text)

-- `strings.TrimSuffix(id, "\r")`.
unfoldable pub trim_return : Text → Text
trim_return [] = []
trim_return (c ∷ []) = if c == 13 then [] else c ∷ []
trim_return (c ∷ d ∷ s) = c ∷ trim_return (d ∷ s)

unfoldable pub clean_ids : List Text → List Text
unfolding trim_return trim_space
clean_ids [] = []
clean_ids (raw ∷ rest) =
    let id = trim_space (trim_return raw) in
    let ids = clean_ids rest in if text_eq id [] then ids else id ∷ ids

unfoldable pub first_list : List (List Text) → List Text
unfolding clean_ids
first_list [] = []
first_list ([] ∷ lists) = first_list lists
first_list ((id ∷ ids) ∷ lists) = clean_ids (id ∷ ids)

-- A nil slice of ids and an empty one are the same to every caller.
unfoldable pub ids_of : Json → Text → List Text
unfolding first_list clean_ids
ids_of json [] = []
ids_of json (c ∷ s) =
    if c == b'{'
    then elim (json.object_lists (c ∷ s)) [
      | none ↦ []
      | some (update_ids, (ids, patches)) ↦ first_list (update_ids ∷ ids ∷ patches ∷ [])
    ]
    else if c == b'['
    then elim (json.string_array (c ∷ s)) [ none ↦ [] | some arr ↦ clean_ids arr ]
    else clean_ids (split 10 (c ∷ s))

unfoldable pub parse_patch_ids : Json → Text → List Text
unfolding ids_of
parse_patch_ids json body = ids_of json (trim_space body)

-- `counts[kind]++`.
unfoldable pub bump : Text → List (Text × ℕ) → List (Text × ℕ)
bump kind [] = (kind, 1) ∷ []
bump kind (e ∷ es) =
    let rest = bump kind es in if text_eq e.0 kind then (e.0, suc e.1) ∷ es else e ∷ rest

unfoldable pub count_kinds : List PatchInfo → List (Text × ℕ) → List (Text × ℕ)
unfolding bump
count_kinds [] counts = counts
count_kinds (p ∷ ps) counts = count_kinds ps (bump p.kind counts)

unfoldable pub count_unsupported : List PatchInfo → ℕ
count_unsupported [] = 0
count_unsupported (p ∷ ps) = (if p.unsupported then 1 else 0) + count_unsupported ps

unfoldable pub count_of : Text → List (Text × ℕ) → ℕ
count_of kind [] = 0
count_of kind (e ∷ es) = let rest = count_of kind es in if text_eq e.0 kind then e.1 else rest

count_texts : List (Text × ℕ) → List Text → List Text
unfolding count_of
count_texts counts [] = []
count_texts counts (kind ∷ kinds) =
    (show_ℕ (count_of kind counts) ++ codes " " ++ kind) ∷ count_texts counts kinds

abbrev kinds_of : List (Text × ℕ) → List Text
kinds_of [] = []
kinds_of (e ∷ es) = e.0 ∷ kinds_of es

unfoldable pub describe_counts : List (Text × ℕ) → Text
unfolding count_texts
describe_counts counts = join_texts (codes ", ") (count_texts counts (sort_texts (kinds_of counts)))

abbrev when : Bool → Text → Text
when b t = if b then t else []

unfoldable pub scan_summary : PatchState → Option Failure → Text
unfolding describe_counts count_kinds count_unsupported
scan_summary state (some e) = codes "patch scan failed: " ++ e.text
scan_summary state none =
    let unsupported = count_unsupported state.patches in
    codes "patch scan via "
    ++ state.backend
    ++ codes ": "
    ++ show_ℕ (length state.patches)
    ++ codes " update(s) available"
    ++ when (ltb 0 (length (count_kinds state.patches [])))
        (codes " (" ++ describe_counts (count_kinds state.patches []) ++ codes ")")
    ++ when (ltb 0 unsupported)
        (codes "; " ++ show_ℕ unsupported ++ codes " cannot be installed by the agent")
    ++ when state.reboot_required (codes "; a reboot is already pending")

failure_lines : List (Text × Text) → List Text
failure_lines [] = []
failure_lines (f ∷ fs) = (f.0 ++ codes ": " ++ f.1) ∷ failure_lines fs

abbrev error_note : Option Failure → Text
error_note none = []
error_note (some e) = codes "; error: " ++ e.text

unfoldable pub install_summary : List Text → InstallResult → Option Failure → Text
unfolding failure_lines
install_summary ids res e =
    codes "patch install: "
    ++ show_ℕ (length res.installed)
    ++ codes " of "
    ++ show_ℕ (length ids)
    ++ codes " requested update(s) installed"
    ++ when (ltb 0 (length res.failures))
        (codes "; failed: " ++ join_texts (codes "; ") (sort_texts (failure_lines res.failures)))
    ++ when res.reboot_required (codes "; a reboot is required to finish")
    ++ error_note e
