-- ===== src/Maintenance.antt =====
-- Maintenance mode: `Mode` is maintenance-mode.ts, `Rows`, `Transitions` and `Preparation` are
-- maintenance-repository.ts, `Gate` is worker/maintenance-mode-gate.ts; the others are proofs.
pub mod Mode
pub mod Rows
pub mod Transitions
pub mod Preparation
pub mod Secrets
pub mod Ownership
pub mod Operations
pub mod Prepare
pub mod Report
pub mod Gate
mod Tests
