-- ===== src/Audit.antt =====
-- services/guardrail-gateway/app/audit: the tamper-evident record of decisions, its writer and the
-- spool on disk.
pub mod Chain
pub mod Spool
pub mod Writer
mod Examples
mod Turns
