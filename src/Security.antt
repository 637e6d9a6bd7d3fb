-- ===== src/Security.antt =====
-- packages/security: rate limits.
pub mod RateLimit
pub mod Tracking
pub mod Windows
mod Tests
