-- ===== src/Security.antt =====
-- Authorization and limits of the gateway: packages/security.
pub mod Authorization
pub mod RateLimiter
mod Tests
