-- ===== src/Winident/Tests.antt =====
-- Runs of agent/internal/winident at concrete inputs.
use everwas.Base.{true}
use everwas.Winident.{Sources}

abbrev both : Sources
both = record {
  domain_joined = true;
  everwas_certs = 1;
  other_client_certs = 1;
  group_policy_profile = true;
}
