-- ===== src/Auth.antt =====
-- packages/auth/src/index.ts: one-time tokens, the lock on failed sign-ins, and sessions.
pub mod Tokens
pub mod Sessions
pub mod Rotation
pub mod Revocation
pub mod Refreshing
pub mod Lockout
pub mod Consumption
pub mod Locking
mod Tests
