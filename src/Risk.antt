-- ===== src/Risk.antt =====
-- services/guardrail-gateway/app/risk: the risk score and the decision table.
pub mod Codes
pub mod Config
pub mod Numerics
pub mod Engine
pub mod Decision
pub mod Examples
