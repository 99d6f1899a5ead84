-- ===== src/Patch/Plan/Tests.antt =====
-- Runs of agent/internal/patch/ids.go at concrete inputs.
use everwas.Base.{◌≡◌, refl, List, [], ◌∷◌, Each}
use everwas.Base.Text.{Text, codes, member, text_eq, cut}
use everwas.Patch.Plan.{
  has_failed, fail_id, apt_install_plan, apt_loop, apt_step, choose, split_pkg_version_id,
  check_pkg_name, check_pkg_version, all_chars,
}
use everwas.Patch.Plan.Safe.{AptSpec, Answered, apt_install_plan_lem}

abbrev asked : List Text
asked = codes "bash=5.2" ∷ codes "-Syu" ∷ codes "vim=9" ∷ []

abbrev offer : List Text
offer = codes "bash=5.2" ∷ []

apt_install_plan_lem_example :
    Each (AptSpec offer) (apt_install_plan asked offer []).specs
    × Each
        (Answered (apt_install_plan asked offer []).specs (apt_install_plan asked offer []).failed)
        asked
apt_install_plan_lem_example = apt_install_plan_lem asked offer []

apt_specs : (apt_install_plan asked offer []).specs ≡ codes "bash=5.2" ∷ []
unfolding apt_install_plan apt_loop apt_step choose split_pkg_version_id check_pkg_name
    check_pkg_version all_chars member text_eq cut fail_id has_failed
apt_specs = refl
