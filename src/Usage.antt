-- ===== src/Usage.antt =====
-- The durable facts of internal/usage: of these, the outbox.
pub mod Outbox
mod Tests
