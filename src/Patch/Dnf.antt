-- ===== src/Patch/Dnf.antt =====
-- The install plan of dnf in agent/internal/patch/ids.go, with the names and ids of dnf_parse.go.
pub mod Offered
mod Tests
use everwas.Base.{
  ℕ, Bool, true, not, ◌||◌, Option, none, some, List, [], ◌∷◌, ◌++◌, ◌==◌, if◌then◌else◌,
}
use everwas.Base.Text.{Text, codes, member, cut}
use everwas.Update.State.{is_empty}
use everwas.Patch.Plan.{
  PlanError, bad_update_id, not_offered, malformed_id, check_pkg_name, check_pkg_version, Failed,
  fail_id,
}

pub record DnfEntry : Type 0 where
  pub name : Text
  pub arch : Text
  pub evr : Text

unfoldable pub nvra : DnfEntry → Text
nvra e =
    if is_empty e.arch then e.name ++ (45 ∷ e.evr) else e.name ++ (45 ∷ (e.evr ++ (46 ∷ e.arch)))

unfoldable pub entry_id : DnfEntry → Text
entry_id e =
    if is_empty e.arch then e.name ++ (61 ∷ e.evr) else e.name ++ (46 ∷ (e.arch ++ (61 ∷ e.evr)))

abbrev pub dnf_arches : List Text
dnf_arches =
    codes "x86_64"
    ∷ codes "i686"
    ∷ codes "i386"
    ∷ codes "noarch"
    ∷ codes "aarch64"
    ∷ codes "armv7hl"
    ∷ codes "armv6hl"
    ∷ codes "ppc64le"
    ∷ codes "ppc64"
    ∷ codes "s390x"
    ∷ codes "riscv64"
    ∷ codes "src"
    ∷ []

abbrev pub cut_after : ℕ → ℕ → Text → Option (Text × Text) → Option (Text × Text)
cut_after sep c cs none = if c == sep then some ([], cs) else none
cut_after sep c cs (some (l, r)) = some (c ∷ l, r)

-- The parts before and after the last separator: `strings.LastIndex`.
unfoldable pub cut_last : ℕ → Text → Option (Text × Text)
cut_last sep [] = none
cut_last sep (c ∷ cs) = cut_after sep c cs (cut_last sep cs)

unfoldable pub split_name_arch : Text → Text × Text
unfolding cut_last
split_name_arch token = elim (cut_last 46 token) [
  | none ↦ (token, [])
  | some (name, candidate) ↦ if member candidate dnf_arches then (name, candidate) else (token, [])
]

abbrev pub entry_of : Text → Text → DnfEntry
entry_of left evr = record {
  name = (split_name_arch left).0;
  arch = (split_name_arch left).1;
  evr = evr;
}

unfoldable pub dnf_install_spec : Text → Option Text
unfolding split_name_arch nvra
dnf_install_spec id = elim (cut 61 id) [
  | none ↦ none
  | some (left, evr) ↦
      if is_empty left || is_empty evr then none else some (nvra (entry_of left evr))
]

pub data DnfChoice : Type 0 where
  dnf_refused : PlanError → DnfChoice
  dnf_chosen : Text → DnfChoice

-- What the loop asks of an id.
unfoldable pub dnf_choose : List Text → Text → DnfChoice
unfolding split_name_arch check_pkg_name check_pkg_version dnf_install_spec
dnf_choose offered id = elim (cut 61 id) [
  | none ↦ dnf_refused bad_update_id
  | some (left, evr) ↦
      if is_empty left || is_empty evr
      then dnf_refused bad_update_id
      else if not (check_pkg_name (split_name_arch left).0 true)
      then dnf_refused bad_update_id
      else if not (check_pkg_version evr)
      then dnf_refused bad_update_id
      else if not (member id offered)
      then dnf_refused not_offered
      else elim (dnf_install_spec id) [
        | none ↦ dnf_refused malformed_id
        | some spec ↦ dnf_chosen spec
      ]
]

pub record DnfPlan : Type 0 where
  pub specs : List Text
  pub id_by_spec : List (Text × Text)
  pub failed : Failed

abbrev pub dnf_add : Text → DnfChoice → DnfPlan → DnfPlan
dnf_add id (dnf_refused e) plan = record plan { failed = fail_id id e plan.failed }
dnf_add id (dnf_chosen spec) plan = record plan {
  specs = plan.specs ++ spec ∷ [];
  id_by_spec = (spec, id) ∷ plan.id_by_spec;
}

unfoldable pub dnf_loop : List Text → List Text → DnfPlan → DnfPlan
unfolding dnf_choose fail_id
dnf_loop offered [] plan = plan
dnf_loop offered (id ∷ ids) plan = dnf_loop offered ids (dnf_add id (dnf_choose offered id) plan)

unfoldable pub dnf_install_plan : List Text → List Text → Failed → DnfPlan
unfolding dnf_loop
dnf_install_plan ids offered failed =
    dnf_loop offered ids (record { specs = []; id_by_spec = []; failed = failed })
