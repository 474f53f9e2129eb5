-- ===== src/Tx.antt =====
-- internal/tx: nonces of the custody wallets, the tracker's table and its outbox.
pub mod Types
pub mod Nonce
pub mod Store
pub mod Outbox
pub mod Node
pub mod Service
pub mod Tracker
pub mod Reconcile
mod Tests
