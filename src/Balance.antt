-- ===== src/Balance.antt =====
-- internal/balance: the custodial wallets that the other packages look up, and the balances that the
-- node has reported for them.
pub mod Registry
pub mod Types
pub mod Store
pub mod Syncer
mod Tests
