-- ===== src/Events.antt =====
-- internal/testevents/events.go: the check of the evidence of `go test -json`.
pub mod Map
pub mod Model
pub mod Track
pub mod Evidence
pub mod Collected
pub mod Totals
pub mod Accepted
