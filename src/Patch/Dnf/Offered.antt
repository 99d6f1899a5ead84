-- ===== src/Patch/Dnf/Offered.antt =====
-- What the plan of agent/internal/patch/ids.go hands to dnf.
use everwas.Base.{
  Each-snoc, ◌≡◌, refl, sym, true, some, List, [], ◌∷◌, ◌++◌, Each, Option-cases, Bool-cases, inl,
  inr, arith,
}
use everwas.Base.Text.{Text, member, cut}
use everwas.Update.State.{is_empty}
use everwas.Patch.Plan.{is_alnum, check_pkg_name, Failed}
use everwas.Patch.Dnf.{
  DnfEntry, nvra, split_name_arch, entry_of, dnf_install_spec, DnfChoice, dnf_refused, dnf_chosen,
  dnf_choose, DnfPlan, dnf_add, dnf_loop, dnf_install_plan,
}

-- It begins with a letter or a digit.
abbrev pub IsRpmWord : Text → Type 0
IsRpmWord [] = ⊥
IsRpmWord (c ∷ cs) = is_alnum true c ≡ true

abbrev pub DnfSpec : List Text → Text → Type 0
DnfSpec offered spec =
    ((id : Text) × ((member id offered ≡ true) × (dnf_install_spec id ≡ some spec)))
    × IsRpmWord spec

check_pkg_name-IsRpmWord :
    (name rest : Text) → check_pkg_name name true ≡ true → IsRpmWord (name ++ rest)
unfolding check_pkg_name
check_pkg_name-IsRpmWord [] rest h = ground arith
check_pkg_name-IsRpmWord (c ∷ cs) rest h = ground (arith, h)

nvra-IsRpmWord : (e : DnfEntry) → check_pkg_name e.name true ≡ true → IsRpmWord (nvra e)
unfolding nvra
nvra-IsRpmWord e h = elim (Bool-cases (is_empty e.arch)) [
  | inl q ↦ rw q (check_pkg_name-IsRpmWord e.name (45 ∷ e.evr) h)
  | inr q ↦ rw q (check_pkg_name-IsRpmWord e.name (45 ∷ (e.evr ++ (46 ∷ e.arch))) h)
]

dnf_choose-DnfSpec :
    (offered : List Text) (id spec : Text)
    → dnf_choose offered id ≡ dnf_chosen spec
    → DnfSpec offered spec
unfolding dnf_choose dnf_install_spec
dnf_choose-DnfSpec offered id spec h = elim (Option-cases (cut 61 id)) [
  | inl n ↦ absurd (ground (arith, n, h))
  | inr ((left, evr), e) ↦
      let name_ok : check_pkg_name (split_name_arch left).0 true ≡ true = ground (arith, e, h) in
      let same : nvra (entry_of left evr) ≡ spec = ground (arith, e, h) in
      (
        (id, (ground (arith, e, h), ground (arith, e, h))),
        rw (sym same) (nvra-IsRpmWord (entry_of left evr) name_ok),
      )
]

dnf_add-DnfSpec :
    (offered : List Text) (id : Text) (c : DnfChoice) (plan : DnfPlan)
    → dnf_choose offered id ≡ c
    → Each (DnfSpec offered) plan.specs
    → Each (DnfSpec offered) (dnf_add id c plan).specs
dnf_add-DnfSpec offered id (dnf_refused e) plan q h = h
dnf_add-DnfSpec offered id (dnf_chosen spec) plan q h =
    Each-snoc (DnfSpec offered) plan.specs spec h (dnf_choose-DnfSpec offered id spec q)

dnf_loop-DnfSpec :
    (offered ids : List Text) (plan : DnfPlan)
    → Each (DnfSpec offered) plan.specs
    → Each (DnfSpec offered) (dnf_loop offered ids plan).specs
unfolding dnf_loop
dnf_loop-DnfSpec offered [] plan h = h
dnf_loop-DnfSpec offered (id ∷ ids) plan h =
    dnf_loop-DnfSpec offered ids (dnf_add id (dnf_choose offered id) plan)
      (dnf_add-DnfSpec offered id (dnf_choose offered id) plan refl h)

-- Whatever ids the server asks for, every spec that dnf is given is made of an id that the host's own scan
-- offers, and begins with a letter or a digit, so that dnf reads none as an option.
pub dnf_install_plan_lem :
    (ids offered : List Text) (failed : Failed)
    → Each (DnfSpec offered) (dnf_install_plan ids offered failed).specs
unfolding dnf_install_plan
dnf_install_plan_lem ids offered failed =
    dnf_loop-DnfSpec offered ids (record { specs = []; id_by_spec = []; failed = failed }) tt
