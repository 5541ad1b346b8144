-- ===== src/States.antt =====
-- internal/statecheck/model.go: a sequential model of a server, and the run that compares them.
pub mod Model
pub mod Run
pub mod Sequences
pub mod Covers
pub mod Server
pub mod Writes
pub mod Ahead
pub mod Checks
pub mod Passes
pub mod Verdicts
pub mod Detects
pub mod Refines
