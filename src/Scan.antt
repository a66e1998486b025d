-- ===== src/Scan.antt =====
-- The scan of an inventory: applicability of a vulnerability to an asset.
pub mod Reconcile
pub mod Versions
pub mod Evidence
pub mod Merge
