-- ===== src/Sdk.antt =====
-- packages/guardrail-sdk: the contracts that the gateway, the control plane and the plugins share.
pub mod Json
pub mod Models
mod Examples
