-- ===== src/Watch/Reports/Trail.antt =====
-- The trail of reports as a chain: what the two methods append continues it.
use mathlib.Core.List.{map-append}
use cvebeacon.Prelude.{
  ℕ, ◌≤◌, ◌+◌, String, ◌≡◌, refl, sym, ap, ◌∙◌, Bool, true, false, Option, none, some, List, [],
  ◌∷◌, ◌++◌, ◌==◌, map, all, arith, Option-cases, PyText, subst, any, not, ◌&&◌, inl, inr, str_eq,
  eq_iff, ltb, if◌then◌else◌,
}
use cvebeacon.Watch.Chain.{
  Row, ChainText, intact, field, is_readable, is_version, values_of, report_chain_fields,
  chain_hash, check_rows, verify_report_rows, link,
}
use cvebeacon.Watch.Reports.{
  Action, report, unreport, IdentityMode, ReportRow, Reporter, ReportStore, ReportOutcome,
  text_cell, number_cell, mode_cell, previous_chain, chain_or_blank, last_id, new_report,
  report_values, cells, report_cve, appended, unreport_cve, record_notice, channel_set, is_reported,
  latest_report,
}

-- A call of one of the two methods.
pub data ReportCall : Type 0 where
  report_call : String → Reporter → Bool → Option String → Bool → List String → ℕ → ReportCall
  unreport_call : String → Reporter → Bool → Option String → List String → ℕ → ReportCall

text_cell-readable : (o : Option String) → is_readable ("", text_cell o) ≡ true
text_cell-readable none = refl
text_cell-readable (some s) = refl

number_cell-readable : (o : Option ℕ) → is_readable ("", number_cell o) ≡ true
number_cell-readable none = refl
number_cell-readable (some n) = refl

mode_cell-readable : (o : Option IdentityMode) → is_readable ("", mode_cell o) ≡ true
mode_cell-readable none = refl
mode_cell-readable (some m) = refl

previous_chain-append :
    (default : String) (rows : List ReportRow) (r : ReportRow)
    → r.chain_version ≡ 1
    → previous_chain default (rows ++ r ∷ []) ≡ chain_or_blank r.chain
unfolding previous_chain
previous_chain-append default [] r h = ground arith
previous_chain-append default (q ∷ rows) r h =
    previous_chain-append (if q.chain_version == 1 then chain_or_blank q.chain else default) rows r
      h

last_id-append :
    (default : ℕ) (rows : List ReportRow) (r : ReportRow) → last_id default (rows ++ r ∷ []) ≡ r.id
unfolding last_id
last_id-append default [] r = refl
last_id-append default (q ∷ rows) r = last_id-append q.id rows r

module _ ⦃py : PyText⦄ where
  cells-readable : (r : ReportRow) → all is_readable (cells r) ≡ true
  cells-readable r = ground (
    arith,
    text_cell-readable r.chain,
    text_cell-readable r.note,
    text_cell-readable r.username,
    text_cell-readable r.os_account,
    text_cell-readable r.host,
    number_cell-readable r.user_id,
    mode_cell-readable r.identity_mode,
  )

  values_of-cells :
      (r : ReportRow) → values_of report_chain_fields (cells r) ≡ some (report_values r)
  unfolding values_of field
  values_of-cells r = refl

  module _ ⦃ct : ChainText⦄ where
    -- The rows verify, up to the digest that the next row continues.
    abbrev pub IsTrail : ℕ → List ReportRow → Type 0
    IsTrail limit rows =
        (check_rows "" false limit (map cells rows) ≡ intact (previous_chain "" rows))
        × (limit ≤ last_id 0 rows)

    check_rows-append :
        (previous : String) (seen : Bool) (limit : ℕ) (rows : List Row) (r : Row) (end : String)
        → is_version 0 (field "chain_version" r) ≡ false
        → check_rows previous seen limit rows ≡ intact end
        → check_rows previous seen limit (rows ++ r ∷ []) ≡ check_rows end true limit (r ∷ [])
    unfolding check_rows
    check_rows-append previous seen limit [] r end version h = ground arith
    check_rows-append previous seen limit (q ∷ rows) r end version h =
        elim (Option-cases (link previous q (values_of report_chain_fields q))) [
          | inl e ↦ ground (arith, e, check_rows-append previous seen limit rows r end)
          | inr (expected, e) ↦ ground (
            arith,
            e,
            check_rows-append previous seen limit rows r end,
            check_rows-append expected true limit rows r end,
          )
        ]

    chained-check :
        (previous : String) (limit : ℕ) (r : ReportRow)
        → r.chain_version ≡ 1
        → r.chain ≡ some (chain_hash previous (report_values r))
        → ltb limit r.id ≡ true
        → check_rows previous true limit (cells r ∷ []) ≡ intact (chain_or_blank r.chain)
    unfolding check_rows field
    chained-check previous limit r version chained above = ground (
      arith,
      cells-readable r,
      values_of-cells r,
      (eq_iff (chain_hash previous (report_values r)) (chain_hash previous (report_values r))).1
          refl,
    )

    -- A row that continues the digest keeps the trail.
    IsTrail-append :
        (limit : ℕ) (rows : List ReportRow) (r : ReportRow)
        → r.id ≡ last_id 0 rows + 1
        → r.chain_version ≡ 1
        → r.chain ≡ some (chain_hash (previous_chain "" rows) (report_values r))
        → IsTrail limit rows
        → IsTrail limit (rows ++ r ∷ [])
    unfolding field
    IsTrail-append limit rows r number version chained (h, bound) = (
      ap (check_rows "" false limit) (map-append cells rows (r ∷ []))
          ∙ check_rows-append "" false limit (map cells rows) (cells r) (previous_chain "" rows)
              (ground arith) h
          ∙ chained-check (previous_chain "" rows) limit r version chained (ground arith)
          ∙ ap intact (sym (previous_chain-append "" rows r version)),
      ground (arith, last_id-append 0 rows r),
    )

    new_report-IsTrail :
        (limit : ℕ) (identifier : String) (action : Action) (who : Reporter)
        (remark : Option String) (now : ℕ) (rows : List ReportRow)
        → IsTrail limit rows
        → IsTrail limit (rows ++ new_report identifier action who remark now rows ∷ [])
    unfolding new_report
    new_report-IsTrail limit identifier action who remark now rows h =
        IsTrail-append limit rows (new_report identifier action who remark now rows) refl refl refl
          h

    pub appended-reports :
        (identifier : String) (action : Action) (who : Reporter) (remark : Option String)
        (channels : List String) (now : ℕ) (s : ReportStore)
        → (appended identifier action who remark channels now s).1.reports
          ≡ s.reports ++ new_report identifier action who remark now s.reports ∷ []
    unfolding record_notice
    appended-reports identifier action who remark channels now s = ground arith

    -- The store after a call.
    abbrev pub perform : ReportCall → ReportStore → ReportStore
    perform (report_call identifier who changed remark force channels now) s =
        (report_cve identifier who changed remark force channels now s).1
    perform (unreport_call identifier who changed remark channels now) s =
        (unreport_cve identifier who changed remark channels now s).1

    if-IsTrail :
        (limit : ℕ) (b : Bool) (x y : ReportOutcome × ReportStore)
        → IsTrail limit x.1.reports
        → IsTrail limit y.1.reports
        → IsTrail limit (if b then x else y).1.reports
    if-IsTrail limit true x y h k = h
    if-IsTrail limit false x y h k = k

    appended-IsTrail :
        (limit : ℕ) (identifier : String) (action : Action) (who : Reporter)
        (remark : Option String) (channels : List String) (now : ℕ) (s : ReportStore)
        → IsTrail limit s.reports
        → IsTrail limit (appended identifier action who remark channels now s).1.reports
    appended-IsTrail limit identifier action who remark channels now s h =
        subst (IsTrail limit) (sym (appended-reports identifier action who remark channels now s))
          (new_report-IsTrail limit identifier action who remark now s.reports h)

    perform-IsTrail :
        (limit : ℕ) (c : ReportCall) (s : ReportStore)
        → IsTrail limit s.reports
        → IsTrail limit (perform c s).reports
    unfolding report_cve unreport_cve
    perform-IsTrail limit (report_call i who changed remark force channels now) s h =
        if-IsTrail limit (not (any (str_eq i) s.cves)) _ _ h (
          if-IsTrail limit (is_reported (latest_report i s.reports) && not force) _ _ h (
            if-IsTrail limit changed _ _ h
              (appended-IsTrail limit i report who remark (channel_set channels) now s h)))
    perform-IsTrail limit (unreport_call i who changed remark channels now) s h =
        if-IsTrail limit (not (is_reported (latest_report i s.reports))) _ _ h (
          if-IsTrail limit changed _ _ h
            (appended-IsTrail limit i unreport who remark (channel_set channels) now s h))

    -- The store after the calls.
    unfoldable pub perform_each : List ReportCall → ReportStore → ReportStore
    perform_each [] s = s
    perform_each (c ∷ cs) s = perform_each cs (perform c s)

    pub perform_each-IsTrail :
        (limit : ℕ) (calls : List ReportCall) (s : ReportStore)
        → IsTrail limit s.reports
        → IsTrail limit (perform_each calls s).reports
    unfolding perform_each
    perform_each-IsTrail limit [] s h = h
    perform_each-IsTrail limit (c ∷ cs) s h =
        perform_each-IsTrail limit cs (perform c s) (perform-IsTrail limit c s h)

    -- From a trail of reports that verifies, with no identifier above its last one allowed for
    -- legacy rows, any calls of report and unreport, with any arguments and in any order, leave a
    -- trail in which the check finds no broken row.
    pub trail_verifies :
        (limit : ℕ) (calls : List ReportCall) (s : ReportStore)
        → IsTrail limit s.reports
        → verify_report_rows (map cells (perform_each calls s).reports) limit ≡ none
    unfolding verify_report_rows
    trail_verifies limit calls s h = ground (arith, (perform_each-IsTrail limit calls s h).0)
