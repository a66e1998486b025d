-- ===== src/Watch/Rules/Evaluate/Rises.antt =====
-- When exactly a rise of the severity is reported.
use cvebeacon.Prelude.{
  ℕ, ◌&&◌, ◌≡◌, subst, sym, max, true, Option, some, List, arith, if◌then◌else◌, PyText, ltb,
}
use cvebeacon.Watch.Records.{WatchView}
use cvebeacon.Watch.Rules.Data.{
  Rule, AlertSnapshot, AlertState, AlertEvent, severity_increase, has_kind, severity_index,
}
use cvebeacon.Watch.Rules.Snapshot.{snapshot_for}
use cvebeacon.Watch.Rules.Evaluate.Steps.{evaluate-some_on}
use cvebeacon.Watch.Rules.Evaluate.{DateTime, severity_events, marked, next_match_state, evaluate}
use cvebeacon.Watch.Rules.Evaluate.Marks.{
  count_kind, raised_band-max, kev_counts, exploitation_counts, status_counts, epss_counts,
  change_counts, severity_mark,
}

module _ ⦃py : PyText⦄ (view : WatchView) (rule : Rule) (old s : AlertSnapshot) where
  severity_count_exact :
      (count_kind severity_increase (severity_events view rule old s) ≡ (
        if has_kind severity_increase rule.events
          && ltb (severity_index old.max_severity_band) (severity_index s.severity_band)
        then 1
        else 0))
      × (severity_index (marked old s).max_severity_band
          ≡ max (severity_index s.severity_band) (severity_index old.max_severity_band))
  unfolding severity_events marked
  severity_count_exact =
      ground (arith, raised_band-max severity_index s.severity_band old.max_severity_band)

abbrev pub RiseExact : WatchView → Rule → AlertState → Option AlertState × List AlertEvent → Type 0
RiseExact view rule p r =
    let band = severity_index (snapshot_for view rule).severity_band in
    let mark = severity_mark (some p) in
    (count_kind severity_increase r.1
      ≡ (if has_kind severity_increase rule.events && ltb mark band then 1 else 0))
    × (severity_mark r.0 ≡ max band mark)

next_match_exact :
    ⦃py : PyText⦄ (view : WatchView) (rule : Rule) (p : AlertState)
    → RiseExact view rule p (next_match_state view rule p)
unfolding next_match_state
next_match_exact view rule p =
    let s = snapshot_for view rule in
    let old = p.snapshot in
    (
      omega (
        arith,
        change_counts view rule severity_increase old s,
        kev_counts view rule old s,
        exploitation_counts view rule old s,
        severity_count_exact view rule old s,
        epss_counts view rule old s,
        status_counts view rule old s,
      ),
      (severity_count_exact view rule old s).1,
    )

-- An enabled rule with a state reports one rise of the severity when it subscribes to the event
-- and the band is above the mark, none otherwise, and the new mark is the greater of the two.
severity-RiseExact :
    ⦃py : PyText⦄ (view : WatchView) (rule : Rule) (p : AlertState) (now : DateTime)
    (before : Option ℕ)
    → rule.enabled ≡ true
    → RiseExact view rule p (evaluate view (some p) rule now before)
severity-RiseExact view rule p now before on =
    subst (RiseExact view rule p) (sym (evaluate-some_on view rule on p now before))
      (next_match_exact view rule p)
