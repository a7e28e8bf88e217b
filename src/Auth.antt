-- ===== src/Auth.antt =====
-- Who may do what, and what the registry says of a route: src/auth/portal-permissions.ts,
-- portal-route-contract.ts, portal-route-router.ts and portal-route-security-plan.ts.
pub mod Permissions
pub mod Contracts
pub mod Router
pub mod Order
pub mod Matching
pub mod Registry
pub mod Plan
mod Tests
