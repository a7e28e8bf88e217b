-- ===== src/Login.antt =====
-- Logins: src/login-rate-limit.ts.
pub mod Limit
pub mod Cooldown
mod Tests
