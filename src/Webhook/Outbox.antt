-- ===== src/Webhook/Outbox.antt =====
-- internal/webhook/store.go and service.go: the outbox of merchant callbacks.
pub mod Deposits
pub mod Claiming
pub mod Oldest
use gin_demo.Prelude.{
  ℕ, suc, leb, ltb, Bool, true, false, not, ◌&&◌, ◌||◌, Option, none, some, List, [], ◌∷◌, ◌++◌,
  ◌==◌, if◌then◌else◌, find_first, select, take, update_where, count_where, any, length,
}
use mathlib.Core.List.{reverse}
use gin_demo.Prelude.Text.{Text, text_eq, codes, is_empty}
use gin_demo.Sql.{
  Result, ok, err, duplicate, outbox_not_found, pure, ◌>>=◌, ◌>>◌, now, guard, exec, query, in_tx,
  or_if_duplicate, choose, first_row,
}
use gin_demo.Schema.{Db, Action}
use gin_demo.Exchange.Types.{Deposit}
use gin_demo.Exchange.Wei.{decimal}
use gin_demo.Webhook.Types.{
  Binding, OutboxRow, OutboxStatus, EventType, Payload, DepositPayload, outbox_tag,
}
use gin_demo.Webhook.Merchants.{bindings_of}

abbrev pub outbox_row : Text → EventType → Text → Payload → ℕ → ℕ → OutboxRow
outbox_row merchant event key payload at id = record {
  id = id;
  merchant_id = merchant;
  event_type = event;
  idempotency_key = key;
  payload = payload;
  status = OutboxStatus.pending;
  retry_count = 0;
  next_retry_at = at;
  created_at = at;
  updated_at = at;
}

abbrev pub has_key : Text → OutboxRow → Bool
has_key key r = text_eq r.idempotency_key key

-- `INSERT INTO webhook_outbox` under the unique key (chain_id, idempotency_key)
abbrev pub add_row : Text → EventType → Text → Payload → ℕ → Db → Result (Bool × Db)
add_row merchant event key payload at db =
    let t = db.webhook in
    if any (has_key key) t.outbox
    then err duplicate
    else ok (
      true,
      record db {
        webhook = record t {
          outbox = outbox_row merchant event key payload at t.next_outbox_id ∷ t.outbox;
          next_outbox_id = suc t.next_outbox_id;
        };
      },
    )

-- `InsertOutboxTx`: whether the row is new
unfoldable pub insert_outbox : Text → EventType → Text → Payload → Action Bool
insert_outbox merchant event key payload = do
  at ← now
  or_if_duplicate (exec (add_row merchant event key payload at)) false

abbrev pub deposit_key : ℕ → Text
deposit_key id = codes "deposit:" ++ decimal id

abbrev pub or_native : Text → Text
or_native [] = codes "native"
or_native (c ∷ s) = c ∷ s

abbrev time_or : ℕ → Option ℕ → ℕ
time_or at none = at
time_or at (some t) = t

abbrev pub deposit_event : Deposit → ℕ → Binding → Payload
deposit_event dep at b = Payload.deposit_payload record {
  merchant_id = b.merchant_id;
  user_id = dep.user_id;
  tx_hash = dep.tx_hash;
  amount_wei = dep.amount_wei;
  token = or_native dep.token_address;
  block_number = dep.block_number;
  confirmed_at = time_or at dep.credited_at;
}

-- the loop of `EnqueueDepositTx`
unfoldable pub enqueue_each : Deposit → ℕ → List Binding → Action (Unit {0})
unfolding insert_outbox
enqueue_each dep at [] = pure tt
enqueue_each dep at (b ∷ rest) = do
  insert_outbox b.merchant_id EventType.deposit_confirmed (deposit_key dep.id)
      (deposit_event dep at b)
  enqueue_each dep at rest

-- `EnqueueDepositTx`: the bindings are read past the transaction
unfoldable pub enqueue_deposit : Bool → Db → Deposit → Action (Unit {0})
unfolding enqueue_each
enqueue_deposit enabled base dep =
    choose enabled
      (do
        bindings ← query (λ db. ok (bindings_of dep.user_id base))
        at ← now
        enqueue_each dep at bindings)
      (pure tt)

abbrev pub is_due : ℕ → OutboxRow → Bool
is_due at r = outbox_tag r.status == outbox_tag OutboxStatus.pending && leb r.next_retry_at at

abbrev pub change_outbox : (OutboxRow → Bool) → (OutboxRow → OutboxRow) → Db → Result (ℕ × Db)
change_outbox test change db =
    let t = db.webhook in
    ok (
      count_where test t.outbox,
      record db { webhook = record t { outbox = update_where test change t.outbox } },
    )

abbrev pub as_processing : ℕ → OutboxRow → OutboxRow
as_processing at r = record r { status = OutboxStatus.processing; updated_at = at }

unfoldable pub take_all : ℕ → List OutboxRow → Action (Unit {0})
take_all at [] = pure tt
take_all at (r ∷ rest) = do
  exec (change_outbox (λ x. x.id == r.id) (as_processing at))
  take_all at rest

-- `ClaimOutboxBatch`: the ids grow, so the oldest rows are the last ones of the table
unfoldable pub claim_outbox_tx : ℕ → Action (List OutboxRow)
unfolding take_all
claim_outbox_tx limit = do
  at ← now
  batch ← query (λ db. ok (take limit (reverse (select (is_due at) db.webhook.outbox))))
  take_all at batch
  pure batch

unfoldable pub claim_outbox_batch : ℕ → Action (List OutboxRow)
unfolding claim_outbox_tx
claim_outbox_batch limit = in_tx (λ base. claim_outbox_tx limit)

-- `MarkOutboxDone`
unfoldable pub mark_outbox_done : ℕ → Action (Unit {0})
mark_outbox_done id = do
  at ← now
  exec (
      change_outbox (λ x. x.id == id)
        (λ x. record x { status = OutboxStatus.done; updated_at = at }))
  pure tt

abbrev pub as_retry : ℕ → ℕ → Bool → ℕ → OutboxRow → OutboxRow
as_retry retry next fail at x = record x {
  status = if fail then OutboxStatus.failed else OutboxStatus.pending;
  retry_count = retry;
  next_retry_at = next;
  updated_at = at;
}

-- `MarkOutboxRetry`
unfoldable pub mark_outbox_retry : ℕ → ℕ → ℕ → Bool → Action (Unit {0})
mark_outbox_retry id retry next fail = do
  at ← now
  exec (change_outbox (λ x. x.id == id) (as_retry retry next fail at))
  pure tt

-- `CountOutboxByStatus`
unfoldable pub count_outbox_by_status : OutboxStatus → Action ℕ
count_outbox_by_status s =
    query (λ db. ok (count_where (λ r. outbox_tag r.status == outbox_tag s) db.webhook.outbox))

abbrev or_not_found : Option OutboxRow → Action OutboxRow
or_not_found none w = (err outbox_not_found, w)
or_not_found (some r) w = (ok r, w)

-- `GetOutboxByID`
unfoldable pub get_outbox_by_id : ℕ → Action OutboxRow
get_outbox_by_id id = do
  found ← query (λ db. ok (find_first (λ x. x.id == id) db.webhook.outbox))
  or_not_found found

abbrev pub is_stuck : ℕ → OutboxRow → Bool
is_stuck id r =
    r.id == id
    && (outbox_tag r.status == outbox_tag OutboxStatus.failed
        || outbox_tag r.status == outbox_tag OutboxStatus.processing)

-- `RequeueOutbox`: the retry count is kept
unfoldable pub requeue_outbox : ℕ → Action (Unit {0})
requeue_outbox id = do
  at ← now
  n ← exec (
      change_outbox (is_stuck id)
        (λ x. record x { status = OutboxStatus.pending; next_retry_at = at; updated_at = at }))
  guard (ltb 0 n) outbox_not_found
