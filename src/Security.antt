-- ===== src/Security.antt =====
-- Which commands run without asking: internal/infrastructure/security (the validator of commands) and
-- internal/domain/security (the policy). Reasons and warnings are texts, which are left out.
pub mod Policy
pub mod Quotes
pub mod Shell
pub mod Validator
