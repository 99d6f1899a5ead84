-- ===== src/Patch/Dnf/Tests.antt =====
-- Plans for dnf in agent/internal/patch/ids.go at concrete inputs.
use everwas.Base.{◌≡◌, refl, List, [], ◌∷◌, some}
use everwas.Base.Text.{Text, codes, member, text_eq, cut}
use everwas.Patch.Plan.{all_chars, check_pkg_name, check_pkg_version, fail_id, has_failed}
use everwas.Patch.Dnf.{
  DnfEntry, nvra, entry_id, cut_last, split_name_arch, dnf_install_spec, dnf_choose, dnf_loop,
  dnf_install_plan,
}

abbrev asked : List Text
asked = codes "python3.11-libs.x86_64=3.11.9-1" ∷ codes "-y=1" ∷ codes "bash=5.2" ∷ []

abbrev offered : List Text
offered = codes "python3.11-libs.x86_64=3.11.9-1" ∷ codes "-y=1" ∷ []

dnf_specs : (dnf_install_plan asked offered []).specs ≡ codes "python3.11-libs-3.11.9-1.x86_64" ∷ []
unfolding dnf_install_plan dnf_loop dnf_choose dnf_install_spec split_name_arch cut_last nvra cut
    check_pkg_name check_pkg_version all_chars member text_eq fail_id has_failed
dnf_specs = refl

abbrev bash : DnfEntry
bash = record { name = codes "bash"; arch = codes "noarch"; evr = codes "0:5.2" }

entry_round_trip : dnf_install_spec (entry_id bash) ≡ some (nvra bash)
unfolding dnf_install_spec entry_id split_name_arch cut_last nvra cut member text_eq
entry_round_trip = refl
