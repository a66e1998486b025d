-- ===== src/Watch/Rules/Tests.antt =====
-- The theorems on rules at a concrete view, and runs of the evaluation.
use cvebeacon.Prelude.{ℕ, ◌≡◌, refl, true, false, none, some, List, [], ◌∷◌, ◌≤◌, ◌+◌, PyText}
use cvebeacon.Watch.Records.{WatchView, CvssEntry, Status, Exploitation}
use cvebeacon.Watch.Rules.Data.{
  Rule, Condition, leaf, any_of, nil, cons, cvss_min, kev, any_catalog, vendor, matched,
  severity_increase, epss_increase, alert, AlertState, medium, unscored,
}
use cvebeacon.Watch.Rules.Tree.{evaluate_condition}
use cvebeacon.Watch.Rules.Tree.Meaning.{holds, IsExplained, evaluate_condition_lem}
use cvebeacon.Watch.Rules.Evaluate.{evaluate, DateTime, naive}
use cvebeacon.Watch.Rules.Evaluate.Repeat.{evaluate-evaluate}
use cvebeacon.Watch.Rules.Evaluate.Marks.{Observation, observe, count_kind, observe_rises}

-- Text in which every letter is its own case fold.
instance abbrev pub plain_text : PyText
plain_text = record {
  casefold = λ s. s;
  strip = λ s. s;
  fromisoformat = λ s. none;
  isoformat = λ d. "2024-01-01";
  strptime = λ s pattern. none;
  datetime_isoformat = λ s. some s;
  utc_isoformat = λ t. "2024-01-01T00:00:00+00:00";
  str_float = λ x. "7.5";
  format_g = λ x. "0.5";
  casefold_idem = λ s. refl;
}

abbrev entry : ℕ → CvssEntry
entry score = record {
  provider = "nvd";
  source = "nvd@nist.gov";
  version = "3.1";
  score = score;
  vector = none;
  severity = none;
}

abbrev pub view_of : ℕ → WatchView
view_of score = record {
  cve_id = "CVE-2024-1";
  status = Status.published;
  published = none;
  first_seen = none;
  last_modified = none;
  description = some "a flaw";
  source_identifier = none;
  cvss = entry score ∷ [];
  cwes = [];
  vendors = "acme" ∷ [];
  products = [];
  references = [];
  ssvc_exploitation = none;
  cisa_kev_added = none;
  cisa_kev_due = none;
  cisa_required_action = none;
  cisa_ransomware = none;
  eu_kev_added = none;
  euvd_id = none;
  euvd_exploited_since = none;
  epss = none;
  epss_percentile = none;
  epss_date = none;
}

abbrev sample_condition : Condition
sample_condition = any_of (
    cons (leaf (kev any_catalog ∷ []))
      (cons (leaf (vendor ("acme" ∷ []) ∷ cvss_min 5000000 ∷ [])) nil))

abbrev sample_rule : Rule
sample_rule = record {
  name = "acme";
  condition = sample_condition;
  channels = "ops" ∷ [];
  events = matched ∷ severity_increase ∷ epss_increase ∷ [];
  cvss_providers = "nvd" ∷ "cna" ∷ [];
  enabled = true;
  old_cves = alert;
}

abbrev noon : DateTime
noon = record { wall = 12; zone = naive }

abbrev medium_state : AlertState
medium_state = record {
  first_matched_at = "2024-01-01T00:00:00+00:00";
  snapshot = record {
    cisa_kev = false;
    eu_kev = false;
    exploitation = Exploitation.absent;
    severity_band = medium;
    epss_band = unscored;
    nvd_score = true;
    status = Status.published;
    max_severity_band = medium;
    max_epss_band = unscored;
    epss = none;
    severity = some 5000000;
  };
}

abbrev two_looks : List Observation
two_looks =
    record { view = view_of 5000000; now = noon; backlog_before = none }
    ∷ record { view = view_of 7500000; now = noon; backlog_before = none }
    ∷ []

evaluate-evaluate_example :
    evaluate
      (view_of 7500000)
      (evaluate (view_of 7500000) (some medium_state) sample_rule noon none).0
      sample_rule
      noon
      (some 3)
    ≡ ((evaluate (view_of 7500000) (some medium_state) sample_rule noon none).0, [])
evaluate-evaluate_example =
    evaluate-evaluate (view_of 7500000) (some medium_state) sample_rule noon noon none (some 3)

observe_rises_example :
    (count_kind severity_increase (observe sample_rule none two_looks).1 + 0 ≤ 4)
    × (count_kind epss_increase (observe sample_rule none two_looks).1 + 0 ≤ 4)
observe_rises_example = observe_rises sample_rule none two_looks

evaluate_condition_lem_example :
    ((evaluate_condition (view_of 7500000) sample_rule sample_condition).0
      ≡ holds (view_of 7500000) sample_rule sample_condition)
    × IsExplained (evaluate_condition (view_of 7500000) sample_rule sample_condition)
evaluate_condition_lem_example =
    evaluate_condition_lem (view_of 7500000) sample_rule sample_condition
