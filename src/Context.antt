-- ===== src/Context.antt =====
-- services/guardrail-gateway/app/context: what a request does, and who asks.
pub mod Descriptors
