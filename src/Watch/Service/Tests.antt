-- ===== src/Watch/Service/Tests.antt =====
-- The theorem on a report through the service, at a concrete identity.
use cvebeacon.Prelude.{◌≡◌, refl, false, none, some, []}
use cvebeacon.Watch.Rules.Tests.{plain_text}
use cvebeacon.Watch.Chain.Encoding.{plain_chain}
use cvebeacon.Watch.Users.{Account, account_by_id, audit_by_id}
use cvebeacon.Watch.Users.Access.{current_account, validate_proof}
use cvebeacon.Watch.Users.Tests.{account, tables}
use cvebeacon.Watch.Reports.{
  authenticated, ReportRow, report, report_cve, latest_report, record_notice, channel_set,
  new_report,
}
use cvebeacon.Watch.Reports.Tests.{empty_store}
use cvebeacon.Watch.Service.{Identity, Session, reporter_of, require_current, service_report}
use cvebeacon.Watch.Service.Accountable.{IsEnabled, service_report-IsEnabled}

abbrev mia : Session
mia = record { user = account 2 "mia" false 0; login_id = 2; credential_version = 0 }

abbrev identity : Identity
identity = record {
  mode = authenticated;
  display = "mia";
  user = some (account 2 "mia" false 0);
  login = some mia;
  email = none;
  session = none;
}

abbrev entry : ReportRow
entry = new_report "CVE-2024-1" report (reporter_of identity "svc" "desk") none 10 []

service_report-IsEnabled_example :
    (a : Account) × IsEnabled tables a
    × (entry.user_id ≡ some a.id)
    × (entry.identity_mode ≡ some authenticated)
unfolding service_report require_current validate_proof current_account account_by_id audit_by_id
    report_cve latest_report record_notice channel_set
service_report-IsEnabled_example =
    service_report-IsEnabled tables identity "svc" "desk" "CVE-2024-1" none false [] 10 empty_store
      (service_report tables identity "svc" "desk" "CVE-2024-1" none false [] 10 empty_store).1
      entry none refl refl refl
