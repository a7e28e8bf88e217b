-- ===== src/Migration.antt =====
-- The storage migrations: the row that keeps track of one, and the lock that lets one run at a time.
pub mod Operation
pub mod Repository
pub mod Progress
pub mod Kept
pub mod Readable
pub mod Lock
mod Tests
