-- ===== src/Watch/Reports/Tests.antt =====
-- The theorems on reports at a concrete store, and a run of the two methods.
use cvebeacon.Prelude.{◌≡◌, ◌⊎◌, refl, false, none, some, List, [], ◌∷◌, map, arith}
use cvebeacon.Watch.Rules.Tests.{plain_text}
use cvebeacon.Watch.Chain.{Row, check_rows, verify_report_rows}
use cvebeacon.Watch.Chain.Encoding.{plain_chain}
use cvebeacon.Watch.Chain.Evidence.{chained_values, Collision, reports_fixed}
use cvebeacon.Watch.Reports.{
  ReportRow, Reporter, ReportStore, registered, cells, new_report, previous_chain, report, last_id,
}
use cvebeacon.Watch.Reports.Trail.{
  ReportCall, report_call, unreport_call, perform_each, IsTrail, perform_each-IsTrail,
  trail_verifies,
}
use cvebeacon.Watch.Reports.Marks.{mark_calls, marked, reported_set}

abbrev alice : Reporter
alice = record {
  display = "Alice";
  user_id = some 7;
  username = some "alice";
  mode = registered;
  os_account = "svc";
  host = "desk";
}

abbrev pub empty_store : ReportStore
empty_store = record {
  cves = "CVE-2024-1" ∷ "CVE-2024-2" ∷ [];
  reports = [];
  events = [];
  deliveries = [];
}

abbrev two_calls : List ReportCall
two_calls =
    report_call "CVE-2024-1" alice false (some "seen") false ("ops" ∷ []) 10
    ∷ unreport_call "CVE-2024-1" alice false none [] 20
    ∷ []

abbrev two_rows : List Row
two_rows = map cells (perform_each two_calls empty_store).reports

abbrev empty_trail : IsTrail 0 empty_store.reports
unfolding check_rows previous_chain last_id
empty_trail = (refl, omega arith)

trail_verifies_example : verify_report_rows two_rows 0 ≡ none
trail_verifies_example = trail_verifies 0 two_calls empty_store empty_trail

reports_fixed_example :
    (chained_values two_rows ≡ chained_values two_rows) ⊎ Collision two_rows two_rows
reports_fixed_example =
    let trail = (perform_each-IsTrail 0 two_calls empty_store empty_trail).0 in
    reports_fixed 0 0 two_rows two_rows
      (previous_chain "" (perform_each two_calls empty_store).reports) trail trail

reported_set_example :
    marked (perform_each two_calls empty_store)
    ≡ mark_calls empty_store.cves two_calls (marked empty_store)
reported_set_example = reported_set two_calls empty_store

abbrev first_row : ReportRow
first_row = new_report "CVE-2024-1" report alice (some "seen") 10 []
