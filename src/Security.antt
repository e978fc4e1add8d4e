-- ===== src/Security.antt =====
-- security/: throttling of attempts, and one-time codes.
pub mod Ratelimit
pub mod Pkce
pub mod Totp
pub mod Recovery
