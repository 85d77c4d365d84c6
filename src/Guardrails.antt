-- ===== src/Guardrails.antt =====
-- services/guardrail-gateway/app/engine: which guardrails run for a request, and what they decide.
pub mod Assignment
pub mod Registry
pub mod Pipeline
pub mod Escalation
pub mod Examples
