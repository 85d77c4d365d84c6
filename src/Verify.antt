-- ===== src/Verify.antt =====
-- services/guardrail-gateway/app/verify: closing an assurance gap before a risky action runs.
pub mod Model
pub mod Planner
pub mod Store
pub mod DryRun
pub mod Engine
pub mod Confirm
mod Examples
