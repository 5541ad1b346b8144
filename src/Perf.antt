-- ===== src/Perf.antt =====
-- tools/sink-perf: the settings, the workers and their reconciliation.
pub mod Settings
pub mod Collect
pub mod Collected
pub mod Sorted
pub mod Report
pub mod Merged
pub mod Reported
pub mod Valid
pub mod Partition
pub mod Worker
pub mod Slots
pub mod Accounting
pub mod Settled
pub mod Served
pub mod Verify
pub mod Records
pub mod Verified
pub mod Reconciled
pub mod Run
pub mod RunKeys
pub mod RunSlots
pub mod RunLaws
pub mod Ended
pub mod RunBooks
pub mod Padding
pub mod PaddingLaws
pub mod Percentile
