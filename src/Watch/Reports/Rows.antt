-- ===== src/Watch/Reports/Rows.antt =====
-- store.py: the rows of the reports, the tables that the methods on them read and write, and their
-- results.
use cvebeacon.Prelude.{ℕ, String, Bool, true, false, Option, none, some, List}
use cvebeacon.Watch.Chain.{Cell, null, integer, text}
use cvebeacon.Watch.Deliveries.Rows.{DeliveryRow}
use cvebeacon.Watch.Deliveries.Initial.{EventRow}

pub data Action : Type 0 where
  report unreport : Action

pub data IdentityMode : Type 0 where
  open_mode registered authenticated : IdentityMode

-- A row of `watch_report`.
pub record ReportRow : Type 0 where
  pub id : ℕ
  pub cve_id : String
  pub action : Action
  pub by : String
  pub note : Option String
  pub at : ℕ
  pub user_id : Option ℕ
  pub username : Option String
  pub identity_mode : Option IdentityMode
  pub os_account : Option String
  pub host : Option String
  pub chain : Option String
  pub chain_version : ℕ

-- What a report keeps of a ReportIdentity.
pub record Reporter : Type 0 where
  pub display : String
  pub user_id : Option ℕ
  pub username : Option String
  pub mode : IdentityMode
  pub os_account : String
  pub host : String

-- The tables that the two methods read and write.
pub record ReportStore : Type 0 where
  pub cves : List String
  pub reports : List ReportRow
  pub events : List EventRow
  pub deliveries : List DeliveryRow

pub data ReportError : Type 0 where
  unknown_cve account_changed : ReportError

-- ReportOutcome, or the error that was raised.
pub data ReportOutcome : Type 0 where
  refused : ReportError → ReportOutcome
  outcome : Option ReportRow → (created : Bool) → (event_id : Option ℕ) → ReportOutcome

abbrev pub action_text : Action → String
action_text report = "report"
action_text unreport = "unreport"

abbrev pub kind_text : Action → String
kind_text report = "reported"
kind_text unreport = "unreported"

abbrev mode_text : IdentityMode → String
mode_text open_mode = "open"
mode_text registered = "registered"
mode_text authenticated = "authenticated"

abbrev pub text_cell : Option String → Cell
text_cell none = null
text_cell (some s) = text s

abbrev pub number_cell : Option ℕ → Cell
number_cell none = null
number_cell (some n) = integer n

abbrev pub mode_cell : Option IdentityMode → Cell
mode_cell none = null
mode_cell (some m) = text (mode_text m)

abbrev pub is_report : Action → Bool
is_report report = true
is_report unreport = false
