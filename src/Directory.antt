-- ===== src/Directory.antt =====
-- The lists of FreeIPA users and of the members of a group: src/freeipa/freeipa-user-query.ts and
-- freeipa-group-member-query.ts.
pub mod Pages
pub mod Joined
pub mod Users
pub mod Members
pub mod Listing
mod Tests
