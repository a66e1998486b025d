-- ===== src/Watch/Rules/Sources/Tests.antt =====
-- The theorems on the sources of rules at concrete rules.
use mathlib.Core.List.{Memᴰ}
use cvebeacon.Prelude.{◌≡◌, refl, true, some, [], ◌∷◌, arith}
use cvebeacon.Watch.Rules.Data.{Rule, leaf, not_of, kev, eu, epss_min, matched, alert}
use cvebeacon.Watch.Rules.Tree.{evaluate_condition}
use cvebeacon.Watch.Rules.Sources.{
  rule_epss_thresholds, epss_minima, contains_leaf, validate_rule_sources, Missing, needs_epss,
}
use cvebeacon.Watch.Rules.Sources.Thresholds.{PassesSame, rescored, rule_epss_thresholds_lem}
use cvebeacon.Watch.Rules.Sources.Configured.{IsLacking, validate_rule_sources-refuses}
use cvebeacon.Watch.Rules.Sources.Needs.{Uses, in_leaf, under_not}
use cvebeacon.Watch.Deliveries.Rows.{sorted_set, insert_id}
use cvebeacon.Watch.Rules.Tests.{plain_text, view_of}

abbrev likely_rule : Rule
likely_rule = record {
  name = "likely";
  condition = leaf (epss_min 500000 ∷ []);
  channels = "ops" ∷ [];
  events = matched ∷ [];
  cvss_providers = "nvd" ∷ [];
  enabled = true;
  old_cves = alert;
}

crosses_none : PassesSame (some 510000) (some 900000) (rule_epss_thresholds (likely_rule ∷ []))
unfolding rule_epss_thresholds epss_minima sorted_set insert_id
crosses_none t m = ground arith

rule_epss_thresholds_lem_example :
    (evaluate_condition
      (rescored (view_of 7500000) (some 510000))
      likely_rule
      likely_rule.condition).0
    ≡ (evaluate_condition
        (rescored (view_of 7500000) (some 900000))
        likely_rule
        likely_rule.condition).0
rule_epss_thresholds_lem_example =
    rule_epss_thresholds_lem (likely_rule ∷ []) likely_rule (view_of 7500000) (some 510000)
      (some 900000) (Memᴰ.head refl) refl crosses_none

-- A rule on what is not in the EU catalogue.
abbrev unlisted_rule : Rule
unlisted_rule = record likely_rule { name = "unlisted"; condition = not_of (leaf (kev eu ∷ [])) }

validate_rule_sources-refuses_example :
    (missing : Missing) × (validate_rule_sources (likely_rule ∷ unlisted_rule ∷ []) ("epss" ∷ [])
      ≡ some missing)
    × IsLacking (likely_rule ∷ unlisted_rule ∷ []) ("epss" ∷ []) missing
validate_rule_sources-refuses_example =
    validate_rule_sources-refuses (likely_rule ∷ unlisted_rule ∷ []) ("epss" ∷ []) unlisted_rule
      "eu_kev" (Memᴰ.tail (Memᴰ.head refl))
      (Uses.eu_catalog refl (under_not (in_leaf (Memᴰ.head refl)))) refl

-- A rule on a score that is not loaded is refused.
refused : validate_rule_sources (likely_rule ∷ []) [] ≡ some (needs_epss "likely")
unfolding validate_rule_sources contains_leaf
refused = refl
