-- ===== src/Limits/Tests.antt =====
-- The limiters at concrete windows and entries.
mod Windows
mod Logins
