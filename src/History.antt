-- ===== src/History.antt =====
-- internal/historycheck/history.go: the checker of concurrent single-record histories.
pub mod Model
pub mod Search
pub mod Legal
pub mod Masks
pub mod Steps
pub mod Visit
pub mod Verdicts
