-- ===== src/Examples.antt =====
-- Concrete requests, and the theorems at them.
mod Messages
mod Turns
mod Stages
mod Limits
mod Stores
mod Histories
mod Commands
mod Failovers
mod Scans
mod Phases
mod Runs
