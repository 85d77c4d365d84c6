-- ===== src/Session.antt =====
-- services/guardrail-gateway/app/session: what the gateway remembers between requests.
pub mod View
pub mod Percentile
pub mod Ordered
pub mod Roomy
pub mod Keys
pub mod Store
mod Examples
