-- ===== src/Catalog.antt =====
-- Which processes of the catalog a subject sees: src/operations/catalog/catalog-policies.ts.
pub mod Policies
pub mod Store
pub mod Decision
pub mod Checked
pub mod Sources
mod Tests
