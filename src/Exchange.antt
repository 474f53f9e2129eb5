-- ===== src/Exchange.antt =====
-- internal/exchange: the ledger of user balances, deposits, withdrawals and the reconciliation.
pub mod Types
pub mod Wei
pub mod Ledger
pub mod Store
pub mod Deposit
pub mod Withdraw
pub mod Reconcile
mod Tests
