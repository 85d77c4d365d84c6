-- ===== src/Advise.antt =====
-- services/guardrail-gateway/app/advise: optional advisors, which can only make a decision stricter.
pub mod Panel
pub mod Caps
mod Examples
