-- ===== src/Indexer/Store/Outbox.antt =====
-- internal/indexer/store.go: the outbox `sync_outbox`, from which the cache is filled. The ids grow,
-- so the oldest rows are the last ones of the table.
use gin_demo.Prelude.{
  ℕ, suc, Bool, ◌&&◌, ◌||◌, List, [], ◌∷◌, ◌==◌, leb, if◌then◌else◌, select, take, update_where,
  count_where,
}
use mathlib.Core.List.{reverse}
use gin_demo.Prelude.Text.{Text}
use gin_demo.Sql.{ok, pure, ◌>>=◌, ◌>>◌, now, exec, query, in_tx}
use gin_demo.Schema.{Action}
use gin_demo.Indexer.Types.{OutboxRow, OutboxStatus, Payload, outbox_tag}
use gin_demo.Indexer.Store.{change}

abbrev pub outbox_row : Text → Payload → ℕ → ℕ → OutboxRow
outbox_row event_type payload at id = record {
  id = id;
  event_type = event_type;
  payload = payload;
  status = OutboxStatus.pending;
  retry_count = 0;
  next_retry_at = at;
  created_at = at;
  updated_at = at;
}

-- `InsertOutboxTx`
unfoldable pub insert_outbox : Text → Payload → Action (Unit {0})
insert_outbox event_type payload = do
  at ← now
  exec (
      change (λ t. record t {
        outbox = outbox_row event_type payload at t.next_outbox_id ∷ t.outbox;
        next_outbox_id = suc t.next_outbox_id;
      }))

abbrev pub is_due : ℕ → OutboxRow → Bool
is_due at r = outbox_tag r.status == outbox_tag OutboxStatus.pending && leb r.next_retry_at at

abbrev pub change_row : ℕ → (OutboxRow → OutboxRow) → Action (Unit {0})
change_row id f =
    exec (change (λ t. record t { outbox = update_where (λ r. r.id == id) f t.outbox }))

abbrev pub as_processing : ℕ → OutboxRow → OutboxRow
as_processing at r = record r { status = OutboxStatus.processing; updated_at = at }

unfoldable pub take_all : ℕ → List OutboxRow → Action (Unit {0})
take_all at [] = pure tt
take_all at (r ∷ rest) = do change_row r.id (as_processing at); take_all at rest

unfoldable pub claim_outbox_tx : ℕ → Action (List OutboxRow)
unfolding take_all
claim_outbox_tx limit = do
  due ← now
  batch ← query (λ db. ok (take limit (reverse (select (is_due due) db.indexer.outbox))))
  at ← now
  take_all at batch
  pure batch

-- `ClaimOutboxBatch`
unfoldable pub claim_outbox_batch : ℕ → Action (List OutboxRow)
unfolding claim_outbox_tx
claim_outbox_batch limit = in_tx (λ base. claim_outbox_tx limit)

-- `MarkOutboxDone`
unfoldable pub mark_outbox_done : ℕ → Action (Unit {0})
mark_outbox_done id = do
  at ← now
  change_row id (λ r. record r { status = OutboxStatus.done; updated_at = at })

abbrev pub as_retry : ℕ → ℕ → Bool → ℕ → OutboxRow → OutboxRow
as_retry retry_count next fail at r = record r {
  status = if fail then OutboxStatus.failed else OutboxStatus.pending;
  retry_count = retry_count;
  next_retry_at = next;
  updated_at = at;
}

-- `MarkOutboxRetry`
unfoldable pub mark_outbox_retry : ℕ → ℕ → ℕ → Bool → Action (Unit {0})
mark_outbox_retry id retry_count next fail = do
  at ← now
  change_row id (as_retry retry_count next fail at)

abbrev is_open : OutboxRow → Bool
is_open r =
    outbox_tag r.status == outbox_tag OutboxStatus.pending
    || outbox_tag r.status == outbox_tag OutboxStatus.processing

-- `CountPendingOutbox`
unfoldable pub count_pending_outbox : Action ℕ
count_pending_outbox = query (λ db. ok (count_where is_open db.indexer.outbox))
