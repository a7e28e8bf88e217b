-- ===== src/Approvals.antt =====
-- Approvals of dangerous operations: src/operations/approvals/approval-gates.ts.
pub mod Policy
pub mod Requirement
pub mod Sound
pub mod Store
pub mod Spec
pub mod Table
pub mod Gates
pub mod Claims
pub mod Backing
pub mod Handlers
pub mod Claimed
pub mod Actions
pub mod Secrets
mod Tests
