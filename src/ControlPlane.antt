-- ===== src/ControlPlane.antt =====
-- services/guardrail-control-plane/app: who may change what, the working set and its publication as
-- snapshots, the review queue, the catalog, and the store behind them.
pub mod Rbac
pub mod Records
pub mod Store
pub mod Service
pub mod Compiler
pub mod Publishing
pub mod Assignments
pub mod Reviews
pub mod Catalog
pub mod AdminKeys
pub mod Versions
pub mod Fleet
mod Examples
mod Isolation
