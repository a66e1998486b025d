-- ===== src/Watch/Deliveries.antt =====
-- src/cvebeacon/watch/store.py: the delivery queue, one row for each event and channel. A method
-- is a function from the stored rows to the new rows and its result; a transaction that is rolled
-- back returns the rows that it began with. Times are instants in microseconds: the stored ISO
-- texts are all in UTC, where the order of the texts is that of the instants.
pub mod Rows
pub mod Claim
pub mod Mark
pub mod Initial
pub mod Notice
pub mod Lifecycle
mod Tests
