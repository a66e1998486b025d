-- ===== src/Watch/Rules/Evaluate/Marks.antt =====
-- The marks of an alert state: the highest bands seen, and how often a rise can be reported.
use cvebeacon.Prelude.{
  ℕ, ◌+◌, ◌≤◌, String, ◌≡◌, subst, sym, max, Bool, true, Option, none, some, List, [], ◌∷◌, ◌++◌,
  arith, if◌then◌else◌, Bool-cases, inl, inr, PyText,
}
use cvebeacon.Watch.Records.{WatchView}
use cvebeacon.Watch.Rules.Data.{
  Rule, AlertSnapshot, AlertState, AlertEvent, EventKind, severity_increase, epss_increase, kind_eq,
  SeverityBand, EpssBand, severity_index, epss_index,
}
use cvebeacon.Watch.Rules.Snapshot.{snapshot_for}
use cvebeacon.Watch.Rules.Tree.{evaluate_condition}
use cvebeacon.Watch.Rules.Evaluate.Steps.{evaluate-none_on, evaluate-some_on, evaluate_off}
use cvebeacon.Watch.Rules.Evaluate.{
  DateTime, raised_band, max_epss, kev_events, exploitation_events, severity_events, epss_events,
  status_events, change_events, marked, first_match_state, next_match_state, evaluate,
}

-- How many events are of the kind.
abbrev pub count_kind : EventKind → List AlertEvent → ℕ
count_kind k [] = 0
count_kind k (e ∷ es) = (if kind_eq k e.kind then 1 else 0) + count_kind k es

count_kind-append :
    (k : EventKind) (xs ys : List AlertEvent)
    → count_kind k (xs ++ ys) ≡ count_kind k xs + count_kind k ys
count_kind-append k [] ys = omega arith
count_kind-append k (x ∷ xs) ys = omega (arith, count_kind-append k xs ys)

pub raised_band-max {ℓ} :
    {B : Type ℓ} (index : B → ℕ) (current mark : B)
    → index (raised_band index current mark) ≡ max (index current) (index mark)
unfolding raised_band
raised_band-max index current mark = ground arith

max_epss_mono : (mark current : EpssBand) → epss_index mark ≤ epss_index (max_epss mark current)
unfolding max_epss raised_band
max_epss_mono mark current = ground arith

severity_le : (b : SeverityBand) → severity_index b ≤ 4
severity_le b = ground arith

epss_le : (b : EpssBand) → epss_index b ≤ 4
epss_le b = ground arith

module _ ⦃py : PyText⦄ (view : WatchView) (rule : Rule) (old s : AlertSnapshot) where
  pub kev_counts :
      (count_kind severity_increase (kev_events view rule old s) ≡ 0)
      × (count_kind epss_increase (kev_events view rule old s) ≡ 0)
  unfolding kev_events
  kev_counts = ground arith

  pub exploitation_counts :
      (count_kind severity_increase (exploitation_events view rule old s) ≡ 0)
      × (count_kind epss_increase (exploitation_events view rule old s) ≡ 0)
  unfolding exploitation_events
  exploitation_counts = ground arith

  pub status_counts :
      (count_kind severity_increase (status_events view rule old s) ≡ 0)
      × (count_kind epss_increase (status_events view rule old s) ≡ 0)
  unfolding status_events
  status_counts = ground arith

  -- A report of a rise goes with a raised mark.
  severity_counts :
      (count_kind severity_increase (severity_events view rule old s)
          + severity_index old.max_severity_band
        ≤ severity_index (marked old s).max_severity_band)
      × (count_kind epss_increase (severity_events view rule old s) ≡ 0)
  unfolding severity_events marked
  severity_counts =
      ground (arith, raised_band-max severity_index s.severity_band old.max_severity_band)

  pub epss_counts :
      (count_kind severity_increase (epss_events view rule old s) ≡ 0)
      × (count_kind epss_increase (epss_events view rule old s) + epss_index old.max_epss_band
          ≤ epss_index (marked old s).max_epss_band)
  unfolding epss_events marked
  epss_counts = ground (arith, max_epss_mono old.max_epss_band s.epss_band)

-- The place of the highest band that a state has seen; a CVE with no state has seen none.
abbrev pub severity_mark : Option AlertState → ℕ
severity_mark none = 0
severity_mark (some p) = severity_index p.snapshot.max_severity_band

abbrev pub epss_mark : Option AlertState → ℕ
epss_mark none = 0
epss_mark (some p) = epss_index p.snapshot.max_epss_band

-- What the reports of one step add to the marks.
abbrev IsCovered : Option AlertState → Option AlertState × List AlertEvent → Type 0
IsCovered s r =
    (count_kind severity_increase r.1 + severity_mark s ≤ severity_mark r.0)
    × (count_kind epss_increase r.1 + epss_mark s ≤ epss_mark r.0)

module _ ⦃py : PyText⦄ (view : WatchView) (rule : Rule) where
  first_match-IsCovered :
      (now : DateTime) (before : Option ℕ) (result : Bool × List String)
      → IsCovered none (first_match_state view rule now before result)
  unfolding first_match_state
  first_match-IsCovered now before result = ground arith

  pub change_counts :
      (k : EventKind) (old s : AlertSnapshot)
      → count_kind k (change_events view rule old s)
        ≡ count_kind k (kev_events view rule old s)
          + count_kind k (exploitation_events view rule old s)
          + count_kind k (severity_events view rule old s)
          + count_kind k (epss_events view rule old s)
          + count_kind k (status_events view rule old s)
  unfolding change_events
  change_counts k old s = simp count_kind-append

  next_match-IsCovered : (p : AlertState) → IsCovered (some p) (next_match_state view rule p)
  unfolding next_match_state
  next_match-IsCovered p =
      let s = snapshot_for view rule in
      omega (
        arith,
        change_counts severity_increase p.snapshot s,
        change_counts epss_increase p.snapshot s,
        kev_counts view rule p.snapshot s,
        exploitation_counts view rule p.snapshot s,
        severity_counts view rule p.snapshot s,
        epss_counts view rule p.snapshot s,
        status_counts view rule p.snapshot s,
      )

  IsCovered-on :
      (s : Option AlertState) (now : DateTime) (before : Option ℕ)
      → rule.enabled ≡ true
      → IsCovered s (evaluate view s rule now before)
  IsCovered-on none now before on =
      subst (IsCovered none) (sym (evaluate-none_on view rule on now before))
        (first_match-IsCovered now before (evaluate_condition view rule rule.condition))
  IsCovered-on (some p) now before on =
      subst (IsCovered (some p)) (sym (evaluate-some_on view rule on p now before))
        (next_match-IsCovered p)

  evaluate-IsCovered :
      (s : Option AlertState) (now : DateTime) (before : Option ℕ)
      → IsCovered s (evaluate view s rule now before)
  evaluate-IsCovered s now before = elim (Bool-cases rule.enabled) [
    | inl on ↦ IsCovered-on s now before on
    | inr off ↦ subst (IsCovered s) (sym (evaluate_off view rule s now before off)) (omega arith)
  ]

-- One call of `evaluate`: the view, the clock and the cutoff of the backlog.
pub record Observation : Type 0 where
  pub view : WatchView
  pub now : DateTime
  pub backlog_before : Option ℕ

module _ ⦃py : PyText⦄ (rule : Rule) where
  -- The rule sees one CVE again and again, with the state that the call before left.
  pub observe : Option AlertState → List Observation → Option AlertState × List AlertEvent
  observe s [] = (s, [])
  observe s (o ∷ os) =
      let (next, events) = evaluate o.view s rule o.now o.backlog_before in
      let (last, more) = observe next os in (last, events ++ more)

  observe-IsCovered : (s : Option AlertState) (os : List Observation) → IsCovered s (observe s os)
  unfolding observe
  observe-IsCovered s [] = omega arith
  observe-IsCovered s (o ∷ os) =
      let step = evaluate o.view s rule o.now o.backlog_before in
      let rest = observe step.0 os in
      omega (
        arith,
        evaluate-IsCovered o.view rule s o.now o.backlog_before,
        observe-IsCovered step.0 os,
        count_kind-append severity_increase step.1 rest.1,
        count_kind-append epss_increase step.1 rest.1,
      )

mark_le : (s : Option AlertState) → (severity_mark s ≤ 4) × (epss_mark s ≤ 4)
mark_le none = omega arith
mark_le (some p) = (severity_le p.snapshot.max_severity_band, epss_le p.snapshot.max_epss_band)

-- Over any sequence of evaluations of a rule, each with the state that the one before left, the
-- reports of a higher severity band and the place of the first state's severity mark add up to at
-- most four; the same holds for the EPSS band.
pub observe_rises :
    ⦃py : PyText⦄ (rule : Rule) (s : Option AlertState) (os : List Observation)
    → (count_kind severity_increase (observe rule s os).1 + severity_mark s ≤ 4)
      × (count_kind epss_increase (observe rule s os).1 + epss_mark s ≤ 4)
observe_rises rule s os = omega (arith, observe-IsCovered rule s os, mark_le (observe rule s os).0)
