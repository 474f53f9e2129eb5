-- ===== src/Indexer.antt =====
-- internal/indexer: the blocks of the chain, their transactions and their events are copied into
-- MySQL, reorgs are rolled back, missing blocks are found again, and deposits are captured.
pub mod Types
pub mod Store
pub mod Events
pub mod Node
pub mod Engine
pub mod GapScan
pub mod EventLogs
pub mod Reorg
pub mod Sync
pub mod OutboxWorker
mod Tests
