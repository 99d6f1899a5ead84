-- ===== src/Patch/Install.antt =====
-- agent/internal/patch/self.go, dedupeIDs of patch.go, and Install of apt_linux.go up to its plan: what stands
-- between the ids of a job and the plan. Whether the gate is free and what the scan offers are arguments.
pub mod Refused
mod Tests
use everwas.Base.{
  ℕ, ◌+◌, ◌*◌, Bool, not, ◌&&◌, ◌||◌, Option, none, some, List, [], ◌∷◌, ltb, if◌then◌else◌,
}
use everwas.Base.Text.{Text, codes, member, cut, trim_space, to_lower}
use everwas.Update.State.{is_empty}
use everwas.Patch.Plan.{
  PlanError, self_package, timeout_too_short, Failed, fail_id, AptPlan, apt_install_plan,
}
use everwas.Patch.Dnf.{split_name_arch}

-- Thirty minutes, in nanoseconds.
abbrev pub min_install_timeout : ℕ
min_install_timeout = 30 * 60000000000

abbrev pub self_package_names : List Text
self_package_names = codes "everwas-agent" ∷ codes "everwas" ∷ []

-- What stands before the first '='.
abbrev pub before_version : Text → Text
before_version id = elim (cut 61 id) [ none ↦ id | some (left, version) ↦ left ]

abbrev pub or_whole : Text → Text → Text
or_whole name left = if is_empty name then left else name

unfoldable pub package_name_of : Text → Text
unfolding cut trim_space split_name_arch
package_name_of id =
    let t = trim_space id in
    if is_empty t
    then []
    else trim_space (or_whole (split_name_arch (before_version t)).0 (before_version t))

unfoldable pub is_self_package : Text → Bool
unfolding package_name_of member
is_self_package id =
    not (is_empty (package_name_of id)) && member (to_lower (package_name_of id)) self_package_names

-- The ids that are left, and the failures.
unfoldable pub refuse_self_packages : List Text → Failed → List Text × Failed
unfolding is_self_package fail_id
refuse_self_packages [] failed = ([], failed)
refuse_self_packages (id ∷ ids) failed =
    let (out, end) =
      refuse_self_packages ids
        (if is_self_package id then fail_id id self_package failed else failed) in
    (if is_self_package id then out else id ∷ out, end)

-- A context without a deadline has `none`.
unfoldable pub check_install_deadline : ℕ → Option ℕ → Option PlanError
check_install_deadline now none = none
check_install_deadline now (some deadline) =
    if ltb deadline (now + min_install_timeout) then some timeout_too_short else none

abbrev pub fail_all : List Text → PlanError → Failed → Failed
fail_all [] e failed = failed
fail_all (id ∷ ids) e failed = fail_all ids e (fail_id id e failed)

unfoldable pub prepare_install :
    ℕ → Option ℕ → List Text → Failed → Option PlanError × (List Text × Failed)
unfolding check_install_deadline refuse_self_packages fail_id
prepare_install now deadline ids failed = elim (check_install_deadline now deadline) [
  | some e ↦ (some e, ([], fail_all ids e failed))
  | none ↦ (none, refuse_self_packages ids failed)
]

unfoldable pub dedupe_from : List Text → List Text → List Text
unfolding member
dedupe_from seen [] = []
dedupe_from seen (id ∷ ids) =
    let skip = is_empty id || member id seen in
    let rest = dedupe_from (if skip then seen else id ∷ seen) ids in
    if skip then rest else id ∷ rest

unfoldable pub dedupe_ids : List Text → List Text
unfolding dedupe_from
dedupe_ids ids = dedupe_from [] ids

pub data InstallError : Type 0 where
  deadline_short busy scan_failed : InstallError

abbrev pub no_plan : Failed → AptPlan
no_plan failed = record { specs = []; want = []; id_by_name = []; failed = failed }

-- By what the scan gave.
unfoldable pub apt_scanned : Option (List Text) → List Text → Failed → Option InstallError × AptPlan
unfolding apt_install_plan
apt_scanned none ids failed = (some scan_failed, no_plan failed)
apt_scanned (some offered) ids failed = (none, apt_install_plan ids offered failed)

-- By what `prepare_install` gave.
unfoldable pub apt_prepared :
    Bool
    → Option (List Text)
    → Option PlanError × (List Text × Failed)
    → Option InstallError × AptPlan
unfolding apt_scanned
apt_prepared free scan (some e, (ids, failed)) = (some deadline_short, no_plan failed)
apt_prepared free scan (none, ([], failed)) = (none, no_plan failed)
apt_prepared free scan (none, (id ∷ ids, failed)) =
    if not free then (some busy, no_plan failed) else apt_scanned scan (id ∷ ids) failed

-- By the ids without the duplicates.
unfoldable pub apt_asked :
    ℕ → Option ℕ → Bool → Option (List Text) → List Text → Option InstallError × AptPlan
unfolding apt_prepared prepare_install
apt_asked now deadline free scan [] = (none, no_plan [])
apt_asked now deadline free scan (id ∷ ids) =
    apt_prepared free scan (prepare_install now deadline (id ∷ ids) [])

unfoldable pub apt_select :
    ℕ → Option ℕ → Bool → Option (List Text) → List Text → Option InstallError × AptPlan
unfolding apt_asked dedupe_ids
apt_select now deadline free scan ids = apt_asked now deadline free scan (dedupe_ids ids)
