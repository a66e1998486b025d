-- ===== src/Watch/Rules.antt =====
-- src/cvebeacon/watch/rules.py: rule parsing, condition evaluation and alert evaluation.
pub mod Data
pub mod Scores
pub mod Match
pub mod Tree
pub mod Snapshot
pub mod Evaluate
pub mod Sources
pub mod Parse
pub mod Stored
pub mod Hash
pub mod Tests
