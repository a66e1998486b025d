-- ===== src/Watch/Rules/Hash/Tests.antt =====
-- Two rules with the same hash value.
use cvebeacon.Prelude.{◌≡◌, refl, true, [], ◌∷◌}
use cvebeacon.Watch.Rules.Data.{
  Rule, leaf, any_of, not_of, nil, cons, kev, any_catalog, vendor, matched, digest, alert,
}
use cvebeacon.Watch.Rules.Hash.{condition_payload, rule_payload}
use cvebeacon.Watch.Rules.Hash.Determines.{rule_payload-determines}

abbrev before : Rule
before = record {
  name = "acme";
  condition =
      any_of
        (cons (leaf (kev any_catalog ∷ [])) (cons (not_of (leaf (vendor ("acme" ∷ []) ∷ []))) nil));
  channels = "ops" ∷ [];
  events = matched ∷ [];
  cvss_providers = "nvd" ∷ [];
  enabled = true;
  old_cves = digest;
}

abbrev after : Rule
after = record before { channels = "soc" ∷ []; old_cves = alert }

same_payload : rule_payload before ≡ rule_payload after
unfolding rule_payload condition_payload
same_payload = refl

rule_payload-determines_example :
    (before.condition ≡ after.condition) × (before.cvss_providers ≡ after.cvss_providers)
rule_payload-determines_example = rule_payload-determines before after same_payload
