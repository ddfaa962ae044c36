-- ===== src/Limits.antt =====
-- The limiters that one process keeps in memory: internal/apikey/limiter.go and
-- internal/auth/limiter.go.
pub mod Window
pub mod Login
mod Tests
