-- ===== src/Providers.antt =====
-- internal/infrastructure/llm: what becomes of the errors of a provider, and which provider answers.
pub mod Classify
pub mod Resilient
pub mod Failover
