-- ===== src/Billing.antt =====
-- internal/billing: prices, wallets, reservations, settlements and liabilities.
pub mod Model
pub mod Money
pub mod Quote
pub mod Store
pub mod Reserve
pub mod Settle
pub mod Release
pub mod Liability
pub mod Credit
pub mod Service
pub mod Books
mod Tests
