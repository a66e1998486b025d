-- ===== src/Watch/Rules/Snapshot.antt =====
-- watch/rules.py: the snapshot of a view, and which views are backlog.
use cvebeacon.Prelude.{
  ℕ, String, Bool, false, Option, none, some, ◌&&◌, not, ltb, leb, str_eq, if◌then◌else◌, is_some,
  given, any, slice_to, PyText,
}
use cvebeacon.Watch.Records.{WatchView, CvssEntry, euvd_datetime}
use cvebeacon.Watch.Rules.Data.{Rule, AlertSnapshot, AlertState}
use cvebeacon.Watch.Rules.Scores.{highest_cvss, severity_band, epss_band}
use cvebeacon.Watch.Rules.Match.{exploitation_level}

abbrev score_of : Option CvssEntry → Option ℕ
score_of none = none
score_of (some e) = some e.score

unfoldable pub snapshot_for : WatchView → Rule → AlertSnapshot
snapshot_for view rule =
    let severity = score_of (highest_cvss view rule.cvss_providers) in
    record {
      cisa_kev = is_some view.cisa_kev_added;
      eu_kev = is_some view.eu_kev_added;
      exploitation = exploitation_level view;
      severity_band = severity_band severity;
      epss_band = epss_band view.epss;
      nvd_score = any (λ e. str_eq e.provider "nvd") view.cvss;
      status = view.status;
      max_severity_band = severity_band severity;
      max_epss_band = epss_band view.epss;
      epss = view.epss;
      severity = severity;
    }

-- Restart the severity marks from the band that the current providers give.
unfoldable pub rebase_severity : AlertState → WatchView → Rule → AlertState
rebase_severity previous view rule =
    let band = (snapshot_for view rule).severity_band in
    record previous {
      snapshot = record previous.snapshot { severity_band = band; max_severity_band = band };
    }

module _ ⦃py : PyText⦄ where
  abbrev prefix_date : Option String → Option ℕ
  prefix_date none = none
  prefix_date (some value) =
      if given (some value) then py.fromisoformat (slice_to 10 value) else none

  unfoldable pub date_prefix : Option String → Option ℕ
  date_prefix value = prefix_date value

  -- `value is not None and value >= cutoff`
  abbrev pub on_or_after : ℕ → Option ℕ → Bool
  on_or_after cutoff none = false
  on_or_after cutoff (some value) = leb cutoff value

  abbrev older_than : ℕ → Option ℕ → Bool
  older_than cutoff none = false
  older_than cutoff (some value) = ltb value cutoff

  abbrev backlog_from : WatchView → ℕ → Bool
  backlog_from view cutoff =
      older_than cutoff (date_prefix view.published)
      && not (on_or_after cutoff (date_prefix view.cisa_kev_added))
      && not (on_or_after cutoff (date_prefix view.eu_kev_added))
      && not (on_or_after cutoff (date_prefix (euvd_datetime view.euvd_exploited_since)))

  unfoldable pub is_backlog : WatchView → Option ℕ → Bool
  is_backlog view none = false
  is_backlog view (some cutoff) = backlog_from view cutoff
