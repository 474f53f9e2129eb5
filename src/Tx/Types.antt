-- ===== src/Tx/Types.antt =====
-- internal/tx/types.go and the tables of internal/tx/schema.go, restricted to the chain of the store
-- as in the exchange.
use gin_demo.Prelude.{ℕ, Option, List, []}
use gin_demo.Prelude.Text.{Text}

pub data Status : Type 0 where
  submitting broadcast_failed pending confirmed failed dropped replaced : Status

pub data TxType : Type 0 where
  native erc20 : TxType

pub data TxFormat : Type 0 where
  legacy eip1559 : TxFormat

abbrev pub status_tag : Status → ℕ
status_tag Status.submitting = 0
status_tag Status.broadcast_failed = 1
status_tag Status.pending = 2
status_tag Status.confirmed = 3
status_tag Status.failed = 4
status_tag Status.dropped = 5
status_tag Status.replaced = 6

-- a row of `tx_tracker`
pub record Row : Type 0 where
  pub tx_hash : Text
  pub from_addr : Text
  pub to_addr : Text
  pub token_addr : Option Text
  pub value_wei : Text
  pub nonce : ℕ
  pub gas_limit : ℕ
  pub gas_price_wei : Option Text
  pub max_fee_per_gas_wei : Option Text
  pub max_priority_fee_wei : Option Text
  pub tx_format : TxFormat
  pub tx_type : TxType
  pub status : Status
  pub block_number : ℕ
  pub gas_used : Option ℕ
  pub confirmations : ℕ
  pub error_message : Option Text
  pub biz_id : Option Text
  pub biz_type : Option Text
  pub idempotency_key : Option Text
  pub replaces_hash : Option Text
  pub replaced_by_hash : Option Text
  pub signed_raw_hex : Option Text
  pub broadcast_retry_count : ℕ
  pub created_at : ℕ
  pub updated_at : ℕ

pub data OutboxStatus : Type 0 where
  pending processing done : OutboxStatus

abbrev pub outbox_tag : OutboxStatus → ℕ
outbox_tag OutboxStatus.pending = 0
outbox_tag OutboxStatus.processing = 1
outbox_tag OutboxStatus.done = 2

-- what `insertOutbox` marshals into the payload column
pub data OutboxExtra : Type 0 where
  transition : ℕ → ℕ → Text → OutboxExtra
  replaced_by : Text → OutboxExtra

-- a row of `tx_status_outbox`
pub record OutboxItem : Type 0 where
  pub id : ℕ
  pub tx_hash : Text
  pub biz_id : Option Text
  pub old_status : Status
  pub new_status : Status
  pub payload : OutboxExtra
  pub last_error : Option Text
  pub status : OutboxStatus
  pub retry_count : ℕ
  pub next_retry_at : ℕ
  pub created_at : ℕ
  pub updated_at : ℕ

-- a row of `wallet_nonce`
pub record WalletNonce : Type 0 where
  pub address : Text
  pub next_nonce : ℕ
  pub updated_at : ℕ

pub record InsertParams : Type 0 where
  pub tx_hash : Text
  pub from_addr : Text
  pub to_addr : Text
  pub token_addr : Text
  pub value_wei : Text
  pub nonce : ℕ
  pub gas_limit : ℕ
  pub gas_price_wei : Text
  pub max_fee_per_gas_wei : Text
  pub max_priority_fee_wei : Text
  pub tx_format : Option TxFormat
  pub tx_type : Option TxType
  pub biz_id : Text
  pub biz_type : Text
  pub idempotency_key : Text
  pub replaces_hash : Text
  pub signed_raw_hex : Text
  pub status : Option Status

pub record Tables : Type 0 where
  pub rows : List Row
  pub outbox : List OutboxItem
  pub nonces : List WalletNonce
  pub next_outbox_id : ℕ

abbrev pub empty_tables : Tables
empty_tables = record { rows = []; outbox = []; nonces = []; next_outbox_id = 1 }
