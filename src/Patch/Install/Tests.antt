-- ===== src/Patch/Install/Tests.antt =====
-- Runs of agent/internal/patch/self.go at concrete inputs.
use everwas.Base.{◌≡◌, refl, true, List, [], ◌∷◌}
use everwas.Base.Text.{Text, codes, member, text_eq, cut, trim_space}
use everwas.Patch.Dnf.{split_name_arch, cut_last}
use everwas.Patch.Install.{is_self_package, package_name_of, dedupe_ids, dedupe_from}

abbrev asked : List Text
asked = codes "bash=5.2" ∷ codes "everwas-agent=9" ∷ codes "bash=5.2" ∷ []

abbrev offer : List Text
offer = codes "bash=5.2" ∷ codes "everwas-agent=9" ∷ []

self_of_dnf : is_self_package (codes " Everwas-Agent.x86_64=1-1 ") ≡ true
unfolding is_self_package package_name_of split_name_arch cut_last cut member text_eq trim_space
self_of_dnf = refl

asked_once : dedupe_ids asked ≡ codes "bash=5.2" ∷ codes "everwas-agent=9" ∷ []
unfolding dedupe_ids dedupe_from member text_eq
asked_once = refl
