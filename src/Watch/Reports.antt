-- ===== src/Watch/Reports.antt =====
-- store.py: `_report_cve` and `_unreport_cve`, the append-only trail of the CVEs that were reported to
-- clients, and the notices that they queue. The tables are held in the order of their identifiers.
-- The identifier of the CVE and the note come in checked, and the texts of a notice are not modelled.
mod Rows
pub use Rows.*
pub mod Trail
pub mod Marks
pub mod Tests
use cvebeacon.Prelude.{
  insert_sorted, ℕ, ◌+◌, String, ◌≡◌, Bool, true, false, Option, none, some, List, [], ◌∷◌, ◌++◌,
  ◌&&◌, ◌==◌, not, any, is_nil, map, if◌then◌else◌, str_eq, truthy, PyText,
}
use cvebeacon.Watch.Chain.{Cell, null, integer, text, Row, ChainText, chain_hash}
use cvebeacon.Watch.Deliveries.Rows.{DeliveryRow, pending}
use cvebeacon.Watch.Deliveries.Initial.{EventRow}

-- `_latest_report`: the newest row of the CVE.
abbrev pub newer : Option ReportRow → Option ReportRow → Option ReportRow
newer none old = old
newer (some r) old = some r

unfoldable pub latest_report : String → List ReportRow → Option ReportRow
latest_report identifier [] = none
latest_report identifier (r ∷ rows) =
    newer (latest_report identifier rows) (if str_eq r.cve_id identifier then some r else none)

-- `SELECT chain ... WHERE chain_version=1 ORDER BY id DESC LIMIT 1`, with "" for no row and for NULL.
abbrev pub chain_or_blank : Option String → String
chain_or_blank none = ""
chain_or_blank (some s) = s

unfoldable pub previous_chain : String → List ReportRow → String
previous_chain default [] = default
previous_chain default (r ∷ rows) =
    previous_chain (if r.chain_version == 1 then chain_or_blank r.chain else default) rows

-- The identifier of the last row; SQLite gives the next one to a new row.
unfoldable pub last_id : ℕ → List ReportRow → ℕ
last_id default [] = default
last_id default (r ∷ rows) = last_id r.id rows

unfoldable pub last_event : ℕ → List EventRow → ℕ
last_event default [] = default
last_event default (e ∷ events) = last_event e.id events

-- `sorted({str(name) for name in notify_channels if name})`
unfoldable pub channel_set : List String → List String
channel_set [] = []
channel_set (c ∷ cs) = let rest = channel_set cs in if truthy c then insert_sorted c rest else rest

abbrev pending_row : ℕ → ℕ → String → DeliveryRow
pending_row event_id now channel = record {
  event_id = event_id;
  channel = channel;
  status = pending;
  attempts = 0;
  last_error = none;
  first_attempt_at = none;
  updated_at = now;
}

-- `_record_report_notice`
unfoldable pub record_notice : ReportRow → List String → ℕ → ReportStore → Option ℕ × ReportStore
record_notice entry channels now s =
    let event_id = last_event 0 s.events + 1 in
    let event : EventRow = record {
      id = event_id;
      cve_id = entry.cve_id;
      kind = kind_text entry.action;
      initial = false;
      created_at = now;
    } in
    if is_nil channels then (none, s) else (
      some event_id,
      record s {
        events = s.events ++ event ∷ [];
        deliveries = s.deliveries ++ map (pending_row event_id now) channels;
      },
    )

abbrev pub is_reported : Option ReportRow → Bool
is_reported none = false
is_reported (some r) = is_report r.action

module _ ⦃py : PyText⦄ where
  -- The hashed values of a row, in the order of REPORT_CHAIN_FIELDS.
  abbrev pub report_values : ReportRow → Row
  report_values r =
      ("id", integer r.id)
      ∷ ("cve_id", text r.cve_id)
      ∷ ("action", text (action_text r.action))
      ∷ ("by", text r.by)
      ∷ ("user_id", number_cell r.user_id)
      ∷ ("username", text_cell r.username)
      ∷ ("identity_mode", mode_cell r.identity_mode)
      ∷ ("os_account", text_cell r.os_account)
      ∷ ("host", text_cell r.host)
      ∷ ("note", text_cell r.note)
      ∷ ("at", text (py.utc_isoformat r.at))
      ∷ []

  -- A row as it is read back.
  abbrev pub cells : ReportRow → Row
  cells r =
      ("chain", text_cell r.chain) ∷ ("chain_version", integer r.chain_version) ∷ report_values r

  module _ ⦃ct : ChainText⦄ where
    -- The row that is inserted, its digest included.
    unfoldable pub new_report :
        String → Action → Reporter → Option String → ℕ → List ReportRow → ReportRow
    new_report identifier action who remark now rows =
        let blank : ReportRow = record {
          id = last_id 0 rows + 1;
          cve_id = identifier;
          action = action;
          by = who.display;
          note = remark;
          at = now;
          user_id = who.user_id;
          username = who.username;
          identity_mode = some who.mode;
          os_account = some who.os_account;
          host = some who.host;
          chain = some "";
          chain_version = 1;
        } in
        record blank { chain = some (chain_hash (previous_chain "" rows) (report_values blank)) }

    abbrev pub appended :
        String
        → Action
        → Reporter
        → Option String
        → List String
        → ℕ
        → ReportStore
        → ReportOutcome × ReportStore
    appended identifier action who remark channels now s =
        let entry = new_report identifier action who remark now s.reports in
        let (event_id, after) =
          record_notice entry channels now (record s { reports = s.reports ++ entry ∷ [] }) in
        (outcome (some entry) true event_id, after)

    -- `_report_cve`; `changed` tells that `recheck` raises.
    unfoldable pub report_cve :
        String
        → Reporter
        → (changed : Bool) → Option String
        → (force : Bool) → List String
        → ℕ
        → ReportStore
        → ReportOutcome × ReportStore
    report_cve identifier who changed remark force channels now s =
        let latest = latest_report identifier s.reports in
        if not (any (str_eq identifier) s.cves)
        then (refused unknown_cve, s)
        else if is_reported latest && not force
        then (outcome latest false none, s)
        else if changed
        then (refused account_changed, s)
        else appended identifier report who remark (channel_set channels) now s

    -- `_unreport_cve`
    unfoldable pub unreport_cve :
        String
        → Reporter
        → (changed : Bool) → Option String
        → List String
        → ℕ
        → ReportStore
        → ReportOutcome × ReportStore
    unreport_cve identifier who changed remark channels now s =
        if not (is_reported (latest_report identifier s.reports))
        then (outcome none false none, s)
        else if changed
        then (refused account_changed, s)
        else appended identifier unreport who remark (channel_set channels) now s
