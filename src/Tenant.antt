-- ===== src/Tenant.antt =====
-- packages/tenant/src/index.ts: roles, members and invitations of organizations.
pub mod Permissions
pub mod Store
pub mod Members
pub mod Invitations
pub mod Owners
pub mod Redemption
pub mod Demotion
pub mod Granting
mod Tests
