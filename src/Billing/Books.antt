-- ===== src/Billing/Books.antt =====
-- The books of internal/billing: what the tables say about each wallet.
pub mod Wallets
pub mod Holds
pub mod Sound
pub mod Effects
pub mod Opening
pub mod Moves
pub mod Debts
pub mod Projection
