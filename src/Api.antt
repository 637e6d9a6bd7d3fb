-- ===== src/Api.antt =====
-- packages/api/src/service.ts: token scopes and idempotent requests.
pub mod Scopes
pub mod Idempotency
pub mod Replay
pub mod Once
pub mod Implications
pub mod Grants
mod Tests
