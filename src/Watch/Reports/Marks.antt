-- ===== src/Watch/Reports/Marks.antt =====
-- Which CVEs count as reported: the newest row of each, as a set that the calls add to and take from.
use mathlib.Core.Path.{fun_ext}
use mathlib.Core.Option.{some-injective}
use cvebeacon.Prelude.{
  ℕ, String, ◌≡◌, refl, sym, ap, ◌∙◌, Bool, true, false, Option, none, some, List, [], ◌∷◌, ◌++◌,
  ◌&&◌, not, any, if◌then◌else◌, str_eq, eq_iff, Bool-cases, arith, PyText,
}
use cvebeacon.Watch.Chain.{ChainText}
use cvebeacon.Watch.Reports.{
  Action, report, unreport, is_report, ReportRow, Reporter, ReportStore, ReportOutcome, refused,
  outcome, newer, latest_report, is_reported, record_notice, channel_set, new_report, appended,
  report_cve, unreport_cve,
}
use cvebeacon.Watch.Reports.Trail.{
  ReportCall, report_call, unreport_call, perform, perform_each, appended-reports,
}

latest_report-append :
    (identifier : String) (rows : List ReportRow) (r : ReportRow)
    → latest_report identifier (rows ++ r ∷ [])
      ≡ newer (if str_eq r.cve_id identifier then some r else none) (latest_report identifier rows)
unfolding latest_report
latest_report-append identifier [] r = ground arith
latest_report-append identifier (q ∷ rows) r =
    ground (arith, latest_report-append identifier rows r)

abbrev entry_of : ReportOutcome → Option ReportRow
entry_of (refused e) = none
entry_of (outcome entry created event) = entry

-- The CVE counts as reported in the store.
abbrev pub marked : ReportStore → String → Bool
marked s identifier = is_reported (latest_report identifier s.reports)

-- The set of reported CVEs after a call, by the set before it.
pub mark_call : List String → ReportCall → (String → Bool) → String → Bool
mark_call cves (report_call i who changed remark force channels now) marks j =
    if any (str_eq i) cves && not changed && str_eq i j then true else marks j
mark_call cves (unreport_call i who changed remark channels now) marks j =
    if not changed && str_eq i j then false else marks j

pub mark_calls : List String → List ReportCall → (String → Bool) → String → Bool
mark_calls cves [] marks = marks
mark_calls cves (c ∷ cs) marks = mark_calls cves cs (mark_call cves c marks)

module _ ⦃py : PyText⦄ ⦃ct : ChainText⦄ where
  appended-marked :
      (i : String) (action : Action) (who : Reporter) (remark : Option String)
      (channels : List String) (now : ℕ) (s : ReportStore) (j : String)
      → marked (appended i action who remark channels now s).1 j
        ≡ (if str_eq i j then is_report action else marked s j)
  unfolding record_notice new_report
  appended-marked i action who remark channels now s j =
      ground
        (arith, latest_report-append j s.reports (new_report i action who remark now s.reports))

  appended-cves :
      (i : String) (action : Action) (who : Reporter) (remark : Option String)
      (channels : List String) (now : ℕ) (s : ReportStore)
      → (appended i action who remark channels now s).1.cves ≡ s.cves
  unfolding record_notice
  appended-cves i action who remark channels now s = ground arith

  perform-cves : (c : ReportCall) (s : ReportStore) → (perform c s).cves ≡ s.cves
  unfolding report_cve unreport_cve
  perform-cves (report_call i who changed remark force channels now) s =
      ground (arith, appended-cves i report who remark (channel_set channels) now s)
  perform-cves (unreport_call i who changed remark channels now) s =
      ground (arith, appended-cves i unreport who remark (channel_set channels) now s)

  perform-marked :
      (c : ReportCall) (s : ReportStore) (j : String)
      → marked (perform c s) j ≡ mark_call s.cves c (marked s) j
  unfolding report_cve unreport_cve mark_call
  perform-marked (report_call i who changed remark force channels now) s j =
      ground (arith, appended-marked i report who remark (channel_set channels) now s j, eq_iff i j)
  perform-marked (unreport_call i who changed remark channels now) s j =
      ground
        (arith, appended-marked i unreport who remark (channel_set channels) now s j, eq_iff i j)

  -- Over any calls of report and unreport, a CVE counts as reported exactly as in a set to which
  -- a report of a stored CVE adds it and from which a withdrawal takes it, unless the account
  -- changed in between.
  pub reported_set :
      (calls : List ReportCall) (s : ReportStore)
      → marked (perform_each calls s) ≡ mark_calls s.cves calls (marked s)
  unfolding perform_each mark_calls
  reported_set [] s = refl
  reported_set (c ∷ cs) s =
      reported_set cs (perform c s)
      ∙ ap (λ cves. mark_calls cves cs (marked (perform c s))) (perform-cves c s)
      ∙ ap (mark_calls s.cves cs) (fun_ext (perform-marked c s))

  latest_report-append_self :
      (i : String) (rows : List ReportRow) (r : ReportRow)
      → r.cve_id ≡ i
      → latest_report i (rows ++ r ∷ []) ≡ some r
  latest_report-append_self i rows r h =
      ground (arith, latest_report-append i rows r, eq_iff r.cve_id i)

  -- A call that made a row ran to its end.
  pub report_cve-created :
      (i : String) (who : Reporter) (remark : Option String) (force : Bool) (channels : List String)
      (now : ℕ) (s t : ReportStore) (entry : ReportRow) (event : Option ℕ)
      → report_cve i who false remark force channels now s ≡ (outcome (some entry) true event, t)
      → (any (str_eq i) s.cves ≡ true)
        × (appended i report who remark (channel_set channels) now s
            ≡ (outcome (some entry) true event, t))
  unfolding report_cve
  report_cve-created i who remark force channels now s t entry event h =
      ground (arith, Bool-cases (any (str_eq i) s.cves))

  new_report-fields :
      (i : String) (action : Action) (who : Reporter) (remark : Option String) (now : ℕ)
      (rows : List ReportRow) (entry : ReportRow)
      → new_report i action who remark now rows ≡ entry
      → (entry.action ≡ action) × (entry.cve_id ≡ i)
  unfolding new_report
  new_report-fields i action who remark now rows entry e =
      (sym (ap (λ r. r.action) e), sym (ap (λ r. r.cve_id) e))

  -- The row of an appended report.
  pub appended-new :
      (i : String) (action : Action) (who : Reporter) (remark : Option String)
      (channels : List String) (now : ℕ) (s t : ReportStore) (entry : ReportRow) (event : Option ℕ)
      → appended i action who remark channels now s ≡ (outcome (some entry) true event, t)
      → new_report i action who remark now s.reports ≡ entry
  appended-new i action who remark channels now s t entry event h =
      some-injective _ _ (ap (λ x. entry_of x.0) h)

  appended-entry :
      (i : String) (action : Action) (who : Reporter) (remark : Option String)
      (channels : List String) (now : ℕ) (s t : ReportStore) (entry : ReportRow) (event : Option ℕ)
      → appended i action who remark channels now s ≡ (outcome (some entry) true event, t)
      → (t.cves ≡ s.cves)
        × (t.reports ≡ s.reports ++ entry ∷ [])
        × (entry.action ≡ action)
        × (entry.cve_id ≡ i)
        × (latest_report i t.reports ≡ some entry)
  appended-entry i action who remark channels now s t entry event h =
      let e = appended-new i action who remark channels now s t entry event h in
      let (acted, named) = new_report-fields i action who remark now s.reports entry e in
      let reports =
        sym (ap (λ x. x.1.reports) h)
        ∙ appended-reports i action who remark channels now s
        ∙ ap (λ r. s.reports ++ r ∷ []) e in
      (
        sym (ap (λ x. x.1.cves) h) ∙ appended-cves i action who remark channels now s,
        reports,
        acted,
        named,
        ap (latest_report i) reports ∙ latest_report-append_self i s.reports entry named,
      )

  -- After a report that made a row, a second report of the CVE without force changes nothing and
  -- returns that row, which is the only one that the first report added to the trail.
  report-report :
      (i : String) (who who' : Reporter) (remark remark' : Option String) (force changed' : Bool)
      (channels channels' : List String) (now now' : ℕ) (s t : ReportStore) (entry : ReportRow)
      (event : Option ℕ)
      → report_cve i who false remark force channels now s ≡ (outcome (some entry) true event, t)
      → (report_cve i who' changed' remark' false channels' now' t
          ≡ (outcome (some entry) false none, t))
        × (t.reports ≡ s.reports ++ entry ∷ [])
  unfolding report_cve
  report-report i who who' remark remark' force changed' channels channels' now now' s t entry event
        h =
      let (known, made) = report_cve-created i who remark force channels now s t entry event h in
      let (same, grown, acted, named, newest) =
        appended-entry i report who remark (channel_set channels) now s t entry event made in
      (ground (arith, known, same, acted, newest), grown)

  -- x
  unreport-unreport :
      (i : String) (who who' : Reporter) (remark remark' : Option String) (changed' : Bool)
      (channels channels' : List String) (now now' : ℕ) (s t : ReportStore) (entry : ReportRow)
      (event : Option ℕ)
      → unreport_cve i who false remark channels now s ≡ (outcome (some entry) true event, t)
      → (unreport_cve i who' changed' remark' channels' now' t ≡ (outcome none false none, t))
        × (t.reports ≡ s.reports ++ entry ∷ [])
  unfolding unreport_cve
  unreport-unreport i who who' remark remark' changed' channels channels' now now' s t entry event
        h =
      let made : appended i unreport who remark (channel_set channels) now s
          ≡ (outcome (some entry) true event, t) =
        ground (arith, h) in
      let (same, grown, acted, named, newest) =
        appended-entry i unreport who remark (channel_set channels) now s t entry event made in
      (ground (arith, acted, newest), grown)
