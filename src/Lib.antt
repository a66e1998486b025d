-- ===== src/Lib.antt =====
-- The core of CVEBeacon: what it watches, whom it tells and what it reports, as functions on values.
--
-- CVEBeacon matches an inventory against vulnerability sources (scan), and watches the CVE feeds with
-- rules that raise alerts for channels (watch). A dashboard starts runs as jobs. All paths below are
-- under src/cvebeacon/.
--
-- The parts and their files:
--   watch/records.py      Watch/Records: the view of a CVE that the rules read; Watch/View:
--                         build_view, which puts it together.
--   watch/rules.py        Watch/Rules: Data has the condition trees, rules and alert states; Scores
--                         (highest_cvss and the bands), Match (_matches_leaf), Tree
--                         (evaluate_condition, describe_condition), Snapshot (snapshot_for,
--                         _is_backlog), Evaluate (evaluate) and Sources (epss_minima,
--                         rule_epss_thresholds, validate_rule_sources) have the functions; Stored
--                         has AlertSnapshot.as_dict and from_dict, Hash has rule_hash. Parse has parse_rules: its values
--                         and the readers of one of them, Parse/Leaves (_leaf_value), Parse/Tree
--                         (_parse_condition) and Parse/Rules (the rest).
--   watch/store.py        Watch/Deliveries: the delivery queue of WatchStore. Rows has the rows of
--                         watch_delivery and the UPDATE statement; Claim (claim_delivery,
--                         release_delivery), Mark (mark_delivery, reset_failed, recover_sending),
--                         Initial (claim_initial_digest, mark_initial_sent, mark_initial_failed,
--                         release_initial), Initial/Chunk (claim_initial_chunk) and Notice
--                         (claim_notice) have the methods; Lifecycle puts any calls together.
--   watch/chain.py        Watch/Chain: chain_hash, verify_chain and, of watch/store.py,
--                         _verify_report_rows; Watch/Chain/Encoding is an instance of ChainText.
--   watch/store.py        Watch/Reports: _report_cve and _unreport_cve on the tables of
--                         Watch/Reports/Rows, with the notices they queue.
--   watch/users.py        Watch/Users: the tables of accounts and the chained log; Access (proofs and
--                         permissions), Login (authenticate, record_logout), Accounts (set_disabled,
--                         unlock, set_password), Roles (add, edit_user, save_role, delete_role) and
--                         Actions (record_action) have the methods; Audit has verify_audit; Calls puts
--                         any calls together.
--   watch/reporting.py    Watch/Service: a report for a resolved identity, with the identity of
--                         watch/identity.py and require_current_in of watch/users.py.
--   watch/feeds.py        Watch/Windows: nvd_windows and euvd_chunks.
--   watch/messages.py     Watch/Messages: split_message.
--   applicability.py      Scan/Versions: known_version, _semver, _compare_versions, _version_entry;
--                         Scan/Evidence: _entry_status, evaluate_cve_evidence.
--   reconcile.py          Scan/Reconcile: reconcile, with the data of models.py and applicability.py;
--                         Scan/Merge: merge_vulnerabilities.
--   http.py               Http/Throttle: Throttle.wait.
--   dashboard_jobs.py     Dashboard/Jobs: the methods of JobStore on the table dashboard_job.
--   dashboard_auth.py     Dashboard/Sessions: AccountSessions; Dashboard/Attempts: DashboardAuth and
--                         AccountLoginThrottle; Dashboard/Dicts has the dicts that they keep.
-- The rules emit events; the store keeps one delivery row for each event and channel, which a run
-- claims, sends and marks. Rules and store share the EPSS thresholds only. A report is made for an
-- account, appends to the chained trail and queues a notice in the same delivery table. The account
-- is checked under the lock of its table, which is held until the report is written.
--
-- How state and numbers are modelled: a method of a store is a function from the rows to its
-- result and the new rows. One transaction is one function, so an interleaving of runs is a
-- sequence of calls; a transaction that is rolled back returns the rows that it began with. A
-- score is a number of millionths, a date an ordinal, an instant a number of microseconds, since
-- the stored ISO texts are all in UTC; julianday is taken as exact. Case folding, the printing of
-- floats and the parsing of dates are the operations of the record PyText, a parameter; so are
-- ChainText, the dump of a row and its SHA-256, UserText, the folding of user names and the check
-- of a password against a hash, VersionText, the matching of a version's pattern and the order of
-- packaging's Version, and IdentityText, the normalising of a name. A method that raises rolls its
-- transaction back: Attempt is its error or its new tables.
--
-- Loops: the loop over chunks of 500 identifiers runs on as much fuel as there are identifiers, the
-- loops over spans of time on as much as the span is long; each turn takes at least one. The reader of conditions
-- recurses on the levels that are left of MAX_DEPTH. A line of a message is cut on as much fuel as it
-- has characters; each cut takes one at least.
--
-- Not modelled: the parsers of feeds and of the configuration other than the rules, network and
-- file input and output, rendering, schedulers, the command line, the migrations and file checks
-- of the account store, the resolution of a report's identity, and the texts of a notice. Which
-- events of a digest are sampled for its message is left out, as are the log files of jobs.
pub mod Dashboard
pub mod Http
pub mod Prelude
pub mod Scan
pub mod Watch
