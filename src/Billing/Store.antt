-- ===== src/Billing/Store.antt =====
-- What internal/billing asks of PostgreSQL and of the transactions of internal/data.
pub mod Tables
pub mod Tx
pub mod Statements
