-- ===== src/Gateway.antt =====
-- services/guardrail-gateway/app/gateway (auth.py, ratelimit.py, flow.py) and app/risk/contextual.py: how one
-- request goes through the identity check, the limits, the policy, the guardrails, the decision table
-- and the review queue.
pub mod RateLimit
pub mod Auth
pub mod Contextual
pub mod Flow
mod Examples
mod Limits
