-- ===== src/Posture/Tests.antt =====
-- Checks of agent/internal/posture at concrete inputs.
use everwas.Base.{◌≡◌, refl, false, [], ◌∷◌}
use everwas.Base.Text.{codes, text_lt}
use everwas.Posture.{
  Check, finds, panics, fail, assess, run_one, insert_result, sort_results, run, add_results,
  summarize,
}

abbrev broken : Check
broken = record {
  name = codes "malware";
  category = codes "malware";
  outcome = panics;
  timed_out = false;
  took_ms = 3;
}

abbrev open_wall : Check
open_wall = record {
  name = codes "firewall";
  category = codes "firewall";
  outcome = finds (record {
    check = [];
    category = [];
    status = fail;
    detail = codes "off";
    evidence = [];
    took_ms = 0;
  });
  timed_out = false;
  took_ms = 8;
}

-- The name comes from the check, and the panicked one is not assessed, and has lost its category.
summary_names :
    ((summarize (run (broken ∷ open_wall ∷ []))).failed ≡ codes "firewall" ∷ [])
    × ((summarize (run (broken ∷ open_wall ∷ []))).not_assessed ≡ codes "malware" ∷ [])
    × ((run_one broken).category ≡ [])
unfolding summarize run add_results sort_results insert_result run_one assess text_lt
summary_names = (refl, refl, refl)
