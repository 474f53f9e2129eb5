-- ===== src/Indexer/Types.antt =====
-- internal/indexer/store.go and internal/indexer/mysql.go: the rows of the indexer's tables, and
-- what internal/indexer/engine.go keeps in memory. The tables hold the rows of one chain, so no row
-- names it; a time is a number of milliseconds, a block number a `uint64` below 2 ^ 64.
use gin_demo.Prelude.{ℕ, Option, List, []}
use gin_demo.Prelude.Text.{Text}

pub record Checkpoint : Type 0 where
  pub last_block_number : ℕ
  pub last_block_hash : Text
  pub confirmed_block_number : ℕ
  pub updated_at : ℕ

pub data BlockStatus : Type 0 where
  pending confirmed orphaned : BlockStatus

abbrev pub block_tag : BlockStatus → ℕ
block_tag BlockStatus.pending = 0
block_tag BlockStatus.confirmed = 1
block_tag BlockStatus.orphaned = 2

-- a row of `synced_blocks`
pub record BlockRow : Type 0 where
  pub block_number : ℕ
  pub block_hash : Text
  pub parent_hash : Text
  pub block_timestamp : ℕ
  pub tx_count : ℕ
  pub gas_used : ℕ
  pub status : BlockStatus
  pub synced_at : ℕ

-- a row of `synced_transactions`
pub record TxRow : Type 0 where
  pub tx_hash : Text
  pub block_number : ℕ
  pub block_hash : Text
  pub tx_index : ℕ
  pub from_addr : Text
  pub to_addr : Option Text
  pub value_wei : Text
  pub gas_used : Option ℕ
  pub tx_status : Option ℕ
  pub synced_at : ℕ

-- a row of `synced_transfer_logs`
pub record TransferLogRow : Type 0 where
  pub tx_hash : Text
  pub log_index : ℕ
  pub block_number : ℕ
  pub contract_address : Text
  pub from_addr : Text
  pub to_addr : Text
  pub value_wei : Text
  pub synced_at : ℕ

-- a row of `synced_event_logs`
pub record EventLogRow : Type 0 where
  pub tx_hash : Text
  pub log_index : ℕ
  pub block_number : ℕ
  pub block_hash : Text
  pub contract_address : Text
  pub event_name : Text
  pub topic0 : Text
  pub topics_json : Text
  pub args_json : Text
  pub synced_at : ℕ

-- The JSON objects that the engine writes to its outbox, with the fields that it reads back.
pub data Payload : Type 0 where
  block_payload : (number : ℕ) (hash : Text) (tx_count gas_used timestamp : ℕ) → Payload
  event_payload : (tx_hash : Text) (block_number : ℕ) (event_name contract args : Text) → Payload

pub data OutboxStatus : Type 0 where
  pending processing done failed : OutboxStatus

abbrev pub outbox_tag : OutboxStatus → ℕ
outbox_tag OutboxStatus.pending = 0
outbox_tag OutboxStatus.processing = 1
outbox_tag OutboxStatus.done = 2
outbox_tag OutboxStatus.failed = 3

-- a row of `sync_outbox`
pub record OutboxRow : Type 0 where
  pub id : ℕ
  pub event_type : Text
  pub payload : Payload
  pub status : OutboxStatus
  pub retry_count : ℕ
  pub next_retry_at : ℕ
  pub created_at : ℕ
  pub updated_at : ℕ

-- a row of `sync_pending_headers`
pub record PendingHeader : Type 0 where
  pub block_number : ℕ
  pub block_hash : Text
  pub enqueued_at : ℕ

pub record BlockMeta : Type 0 where
  pub number : ℕ
  pub hash : Text

-- a row of `indexer_gap_scans`
pub record GapScanAudit : Type 0 where
  pub head_block : ℕ
  pub scan_from : ℕ
  pub scan_to : ℕ
  pub gaps_found : ℕ
  pub hash_mismatches : ℕ
  pub gaps_enqueued : ℕ
  pub scanned_at : ℕ

-- `Status`, the part of it that is read from the tables and the node
pub record Status : Type 0 where
  pub last_block_number : ℕ
  pub last_block_hash : Text
  pub confirmed_block_number : ℕ
  pub head_block_number : ℕ
  pub lag_blocks : ℕ
  pub pending_headers : ℕ
  pub pending_outbox : ℕ
  pub blocks_synced : ℕ
  pub txs_synced : ℕ
  pub events_synced : ℕ
  pub watch_contracts : ℕ
  pub reorgs_handled : ℕ
  pub last_gap_scan_at : ℕ
  pub last_gaps_found : ℕ
  pub last_hash_mismatches : ℕ
  pub last_gaps_enqueued : ℕ

-- The tables, newest row first; there is at most one checkpoint row for a chain.
pub record Tables : Type 0 where
  pub checkpoint : Option Checkpoint
  pub pending_headers : List PendingHeader
  pub blocks : List BlockRow
  pub transactions : List TxRow
  pub transfer_logs : List TransferLogRow
  pub outbox : List OutboxRow
  pub event_logs : List EventLogRow
  pub gap_scans : List GapScanAudit
  pub next_outbox_id : ℕ

abbrev pub empty_tables : Tables
empty_tables = record {
  checkpoint = Option.none;
  pending_headers = [];
  blocks = [];
  transactions = [];
  transfer_logs = [];
  outbox = [];
  event_logs = [];
  gap_scans = [];
  next_outbox_id = 1;
}

-- The fields of `Engine` that change: the channel of jobs, oldest first, the number of reorgs, and
-- the figures of the last gap scan.
pub record EngineState : Type 0 where
  pub jobs : List ℕ
  pub reorgs : ℕ
  pub last_gap_scan : ℕ
  pub last_gaps_found : ℕ
  pub last_hash_mismatch : ℕ
  pub last_gaps_enqueued : ℕ

abbrev pub new_state : EngineState
new_state = record {
  jobs = [];
  reorgs = 0;
  last_gap_scan = 0;
  last_gaps_found = 0;
  last_hash_mismatch = 0;
  last_gaps_enqueued = 0;
}

abbrev pub empty_checkpoint : Checkpoint
empty_checkpoint = record {
  last_block_number = 0;
  last_block_hash = [];
  confirmed_block_number = 0;
  updated_at = 0;
}
