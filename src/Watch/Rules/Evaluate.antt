-- ===== src/Watch/Rules/Evaluate.antt =====
-- watch/rules.py: `evaluate`, one rule against one view with the state that the last call left.
mod Steps
pub mod Repeat
pub mod Marks
pub mod Rises
use cvebeacon.Prelude.{
  ℕ, ◌+◌, ◌-◌, String, Bool, true, false, Option, none, some, List, [], ◌∷◌, ◌++◌, ◌&&◌, not, ltb,
  ◌==◌, if◌then◌else◌, member, concat, PyText,
}
use cvebeacon.Watch.Records.{WatchView}
use cvebeacon.Watch.Rules.Data.{
  EventKind, matched, kev_added, exploitation_active, severity_increase, epss_increase,
  nvd_score_added, status_rejected, SeverityBand, unrated, low, medium, high, critical, EpssBand,
  unscored, below_one, below_five, below_nine, from_nine, OldCves, digest, alert, ignore, Rule,
  AlertSnapshot, AlertState, AlertEvent, severity_index, epss_index, has_kind, is_rejected,
  is_active,
}
use cvebeacon.Watch.Rules.Match.{
  exploitation_sources, source_suffix, exploitation_text, status_text,
}
use cvebeacon.Watch.Rules.Tree.{evaluate_condition}
use cvebeacon.Watch.Rules.Snapshot.{snapshot_for, date_prefix, is_backlog}

-- A `datetime`: its wall clock in microseconds, and its zone's offset from UTC, east or west.
pub data Zone : Type 0 where
  naive : Zone
  offset : (east west : ℕ) → Zone

pub record DateTime : Type 0 where
  pub wall : ℕ
  pub zone : Zone

abbrev utc_wall : ℕ → Zone → ℕ
utc_wall wall naive = wall
utc_wall wall (offset east west) = wall + west - east

abbrev severity_text : SeverityBand → String
severity_text unrated = "none"
severity_text low = "low"
severity_text medium = "medium"
severity_text high = "high"
severity_text critical = "critical"

abbrev epss_text : EpssBand → String
epss_text unscored = "none"
epss_text below_one = "<0.1"
epss_text below_five = "<0.5"
epss_text below_nine = "<0.9"
epss_text from_nine = ">=0.9"

abbrev pub is_digest : OldCves → Bool
is_digest digest = true
is_digest _ = false

abbrev pub is_ignore : OldCves → Bool
is_ignore ignore = true
is_ignore _ = false

-- `_raised_band` over the places of the labels
unfoldable pub raised_band {ℓ} : {B : Type ℓ} → (B → ℕ) → B → B → B
raised_band index current mark = if ltb (index mark) (index current) then current else mark

-- The guard around the EPSS mark: the first appearance of a low score is not a rise.
abbrev first_low_score : EpssBand → EpssBand → Bool
first_low_score unscored below_one = true
first_low_score _ _ = false

unfoldable pub max_epss : EpssBand → EpssBand → EpssBand
unfolding raised_band
max_epss mark current =
    if first_low_score mark current then mark else raised_band epss_index current mark

-- `[event]` under a condition
abbrev pub event_if : Bool → AlertEvent → List AlertEvent
event_if true e = e ∷ []
event_if false e = []

abbrev plain : WatchView → Rule → EventKind → String → String → AlertEvent
plain view rule kind reason occurrence = record {
  rule = rule.name;
  cve_id = view.cve_id;
  kind = kind;
  reasons = reason ∷ [];
  occurrence = occurrence;
  initial = false;
  details = [];
}

-- A rejected record only matches a rule that asks for the status.
pub admits : WatchView → Bool × List String → Bool
admits view (hit, reasons) =
    hit && not (is_rejected view.status && not (member "status rejected" reasons))

module _ ⦃py : PyText⦄ where
  abbrev date_text : Option ℕ → String
  date_text none = ""
  date_text (some d) = py.isoformat d

  abbrev timestamp : DateTime → String
  timestamp now = py.utc_isoformat (utc_wall now.wall now.zone)

  -- What the first view that matches leads to.
  pub first_match_state :
      WatchView
      → Rule
      → DateTime
      → Option ℕ
      → Bool × List String
      → Option AlertState × List AlertEvent
  first_match_state view rule now backlog_before result =
      let backlog = is_backlog view backlog_before in
      if admits view result
      then (
        some (record { first_matched_at = timestamp now; snapshot = snapshot_for view rule }),
        if backlog && is_ignore rule.old_cves
            then []
            else event_if (has_kind matched rule.events) (record {
              rule = rule.name;
              cve_id = view.cve_id;
              kind = matched;
              reasons = result.1;
              occurrence = "match";
              initial = backlog && is_digest rule.old_cves;
              details = [];
            }),
      )
      else (none, [])

  -- The events of a view that was matched before, kind by kind in the source's order.
  pub kev_events : WatchView → Rule → AlertSnapshot → AlertSnapshot → List AlertEvent
  kev_events view rule old snapshot =
      event_if (has_kind kev_added rule.events && (not old.cisa_kev && snapshot.cisa_kev)) (
        plain view rule kev_added "kev cisa false -> true"
          (concat ("cisa:" ∷ date_text (date_prefix view.cisa_kev_added) ∷ [])))
      ++ event_if (has_kind kev_added rule.events && (not old.eu_kev && snapshot.eu_kev)) (
          plain view rule kev_added "kev eu false -> true"
            (concat ("eu:" ∷ date_text (date_prefix view.eu_kev_added) ∷ [])))

  pub exploitation_events : WatchView → Rule → AlertSnapshot → AlertSnapshot → List AlertEvent
  exploitation_events view rule old snapshot =
      event_if
        (has_kind exploitation_active rule.events
          && (not (is_active old.exploitation) && is_active snapshot.exploitation))
        (plain view rule exploitation_active
          (concat (
            "exploitation "
            ∷ exploitation_text old.exploitation
            ∷ " -> active"
            ∷ source_suffix (exploitation_sources view)
            ∷ []))
          "active")

  pub severity_events : WatchView → Rule → AlertSnapshot → AlertSnapshot → List AlertEvent
  severity_events view rule old snapshot =
      let raised = raised_band severity_index snapshot.severity_band old.max_severity_band in
      event_if
        (has_kind severity_increase rule.events
          && not (severity_index raised == severity_index old.max_severity_band))
        (record {
          rule = rule.name;
          cve_id = view.cve_id;
          kind = severity_increase;
          reasons =
              concat (
                "severity "
                ∷ severity_text old.severity_band
                ∷ " -> "
                ∷ severity_text snapshot.severity_band
                ∷ [])
              ∷ [];
          occurrence = severity_text snapshot.severity_band;
          initial = false;
          details = ("previous_severity", old.severity) ∷ ("severity", snapshot.severity) ∷ [];
        })

  pub epss_events : WatchView → Rule → AlertSnapshot → AlertSnapshot → List AlertEvent
  epss_events view rule old snapshot =
      let raised = max_epss old.max_epss_band snapshot.epss_band in
      event_if
        (has_kind epss_increase rule.events
          && not (epss_index raised == epss_index old.max_epss_band))
        (record {
          rule = rule.name;
          cve_id = view.cve_id;
          kind = epss_increase;
          reasons =
              concat
                ("epss " ∷ epss_text old.epss_band ∷ " -> " ∷ epss_text snapshot.epss_band ∷ [])
              ∷ [];
          occurrence = epss_text snapshot.epss_band;
          initial = false;
          details = ("previous_epss", old.epss) ∷ ("epss", snapshot.epss) ∷ [];
        })

  pub status_events : WatchView → Rule → AlertSnapshot → AlertSnapshot → List AlertEvent
  status_events view rule old snapshot =
      event_if (has_kind nvd_score_added rule.events && (not old.nvd_score && snapshot.nvd_score))
        (plain view rule nvd_score_added "nvd score absent -> present" "nvd")
      ++ event_if
          (has_kind status_rejected rule.events
            && (not (is_rejected old.status) && is_rejected snapshot.status))
          (plain view rule status_rejected
            (concat ("status " ∷ status_text old.status ∷ " -> rejected" ∷ []))
            (concat ("rejected:" ∷ date_text (date_prefix view.last_modified) ∷ [])))

  pub change_events : WatchView → Rule → AlertSnapshot → AlertSnapshot → List AlertEvent
  change_events view rule old snapshot =
      kev_events view rule old snapshot
      ++ exploitation_events view rule old snapshot
      ++ severity_events view rule old snapshot
      ++ epss_events view rule old snapshot
      ++ status_events view rule old snapshot

  -- `replace(snapshot, max_severity_band=..., max_epss_band=...)`
  pub marked : AlertSnapshot → AlertSnapshot → AlertSnapshot
  marked old snapshot = record snapshot {
    max_severity_band = raised_band severity_index snapshot.severity_band old.max_severity_band;
    max_epss_band = max_epss old.max_epss_band snapshot.epss_band;
  }

  -- What another view of a matched CVE leads to.
  pub next_match_state : WatchView → Rule → AlertState → Option AlertState × List AlertEvent
  next_match_state view rule previous =
      let snapshot = snapshot_for view rule in
      (
        some (record previous { snapshot = marked previous.snapshot snapshot }),
        change_events view rule previous.snapshot snapshot,
      )

  unfoldable pub evaluate :
      WatchView
      → Option AlertState
      → Rule
      → DateTime
      → Option ℕ
      → Option AlertState × List AlertEvent
  evaluate view none rule now backlog_before =
      if rule.enabled
      then first_match_state view rule now backlog_before
          (evaluate_condition view rule rule.condition)
      else (none, [])
  evaluate view (some previous) rule now backlog_before =
      if rule.enabled then next_match_state view rule previous else (some previous, [])
