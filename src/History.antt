-- ===== src/History.antt =====
-- internal/infrastructure/history: the history of a session in memory (history.go) and the JSON Lines
-- file behind it (store.go).
pub mod Lines
pub mod Backend
pub mod Turns
pub mod Edit
pub mod Memory
