-- ===== src/Restore.antt =====
-- The restore of selected parts of a backup: src/backup/restore and the list of the parts in
-- src/backup/backup-manifest.ts.
pub mod Domains
pub mod Closed
pub mod Policy
pub mod Stage
pub mod Repository
pub mod Kept
pub mod Cancelled
mod Tests
