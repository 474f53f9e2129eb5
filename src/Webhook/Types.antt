-- ===== src/Webhook/Types.antt =====
-- internal/webhook/types.go and the tables of internal/webhook/schema.go, restricted to the chain of
-- the store as in the exchange. A payload is kept as the value that `json.Marshal` is given.
use gin_demo.Prelude.{ℕ, Bool, Option, List, []}
use gin_demo.Prelude.Text.{Text}

pub data EventType : Type 0 where
  deposit_confirmed payment_success : EventType

pub data OutboxStatus : Type 0 where
  pending processing done failed : OutboxStatus

abbrev pub outbox_tag : OutboxStatus → ℕ
outbox_tag OutboxStatus.pending = 0
outbox_tag OutboxStatus.processing = 1
outbox_tag OutboxStatus.done = 2
outbox_tag OutboxStatus.failed = 3

pub record Merchant : Type 0 where
  pub merchant_id : Text
  pub name : Text
  pub webhook_url : Text
  pub secret : Text
  pub ledger_user_id : Text
  pub enabled : Bool
  pub created_at : ℕ
  pub updated_at : ℕ

pub record Binding : Type 0 where
  pub merchant_id : Text
  pub payer_user_id : Text
  pub created_at : ℕ

pub record DepositPayload : Type 0 where
  pub merchant_id : Text
  pub user_id : Text
  pub tx_hash : Text
  pub amount_wei : Text
  pub token : Text
  pub block_number : ℕ
  pub confirmed_at : ℕ

pub record PaymentPayload : Type 0 where
  pub merchant_id : Text
  pub order_id : Text
  pub payer_id : Text
  pub amount_wei : Text
  pub token : Text
  pub paid_at : ℕ

pub data Payload : Type 0 where
  deposit_payload : DepositPayload → Payload
  payment_payload : PaymentPayload → Payload
  bench_payload : Text → ℕ → Payload

pub record OutboxRow : Type 0 where
  pub id : ℕ
  pub merchant_id : Text
  pub event_type : EventType
  pub idempotency_key : Text
  pub payload : Payload
  pub status : OutboxStatus
  pub retry_count : ℕ
  pub next_retry_at : ℕ
  pub created_at : ℕ
  pub updated_at : ℕ

pub record Delivery : Type 0 where
  pub id : ℕ
  pub outbox_id : ℕ
  pub merchant_id : Text
  pub attempt : ℕ
  pub http_status : ℕ
  pub latency_ms : ℕ
  pub response_body : Option Text
  pub error_message : Option Text
  pub created_at : ℕ

-- a row of `merchant_payments`; its `status` is always completed
pub record Payment : Type 0 where
  pub id : ℕ
  pub merchant_id : Text
  pub order_id : Text
  pub payer_user_id : Text
  pub token_address : Text
  pub amount_wei : Text
  pub idempotency_key : Text
  pub created_at : ℕ

pub record Tables : Type 0 where
  pub merchants : List Merchant
  pub bindings : List Binding
  pub outbox : List OutboxRow
  pub deliveries : List Delivery
  pub payments : List Payment
  pub next_outbox_id : ℕ
  pub next_delivery_id : ℕ
  pub next_payment_id : ℕ

abbrev pub empty_tables : Tables
empty_tables = record {
  merchants = [];
  bindings = [];
  outbox = [];
  deliveries = [];
  payments = [];
  next_outbox_id = 1;
  next_delivery_id = 1;
  next_payment_id = 1;
}
