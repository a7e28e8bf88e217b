-- ===== src/Conditions.antt =====
-- When a field of an operation is shown: src/automation/field-conditions.ts.
pub mod Condition
pub mod Normalize
pub mod Bounds
pub mod Locality
mod Tests
