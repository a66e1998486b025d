-- ===== src/Watch.antt =====
-- src/cvebeacon/watch/: the records of one CVE, the alert rules, the stores.
pub mod Records
pub mod Rules
pub mod Deliveries
pub mod Windows
pub mod View
pub mod Chain
pub mod Reports
pub mod Users
pub mod Service
pub mod Messages
