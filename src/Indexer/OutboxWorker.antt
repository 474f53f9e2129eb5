-- ===== src/Indexer/OutboxWorker.antt =====
-- internal/indexer/engine.go: the outbox fills the cache, and what the engine tells of itself. The
-- cache is the one in memory, which never fails.
pub mod Outcome
use gin_demo.Prelude.{
  ℕ, suc, ◌+◌, ◌-◌, ◌*◌, Bool, true, false, ◌||◌, Option, none, some, List, [], ◌∷◌, ◌++◌, leb, ltb,
  if◌then◌else◌,
}
use gin_demo.Prelude.Text.{Text, codes, text_eq}
use gin_demo.Sql.{
  Result, ok, err, unknown_event, pure, fail, ◌>>=◌, ◌>>◌, now, memory, choose, attempt, query,
}
use gin_demo.Schema.{Db, Action}
use gin_demo.Cache as Cache
use gin_demo.Exchange.Wei.{decimal}
use gin_demo.Indexer.Types.{OutboxRow, Payload, Status, EngineState}
use gin_demo.Indexer.Node.{Node}
use gin_demo.Indexer.Sync.{head_of}
use gin_demo.Indexer.Events.{watch_count}
use gin_demo.Indexer.Store.{load_checkpoint, count_pending_headers}
use gin_demo.Indexer.Store.Queries.{count_blocks, count_txs, count_events}
use gin_demo.Indexer.Store.Outbox.{
  claim_outbox_batch, mark_outbox_done, mark_outbox_retry, count_pending_outbox,
}
use gin_demo.Indexer.Engine.{Engine, cache_block_key, cache_head_key}

-- `parseBlockNum`: a field that is not in the object is 0 or empty
unfoldable pub parse_block_num : Payload → ℕ
parse_block_num (Payload.block_payload number hash count gas time) = number
parse_block_num (Payload.event_payload tx_hash number name contract args) = 0

unfoldable pub parse_tx_hash : Payload → Text
parse_tx_hash (Payload.block_payload number hash count gas time) = []
parse_tx_hash (Payload.event_payload tx_hash number name contract args) = tx_hash

unfoldable pub parse_event_name : Payload → Text
parse_event_name (Payload.block_payload number hash count gas time) = []
parse_event_name (Payload.event_payload tx_hash number name contract args) = name

abbrev pub event_key : Engine → OutboxRow → Text
event_key e item =
    codes "indexer:event:"
    ++ decimal e.chain_id
    ++ codes ":"
    ++ parse_event_name item.payload
    ++ codes ":"
    ++ parse_tx_hash item.payload

abbrev pub cache_block : Engine → OutboxRow → ℕ → Db → Unit {0} × Db
cache_block e item at db =
    let num = parse_block_num item.payload in
    let key = cache_block_key e.chain_id num in
    let stored = Cache.set at key (e.payload_json item.payload) 600000 db.cache in
    (tt, record db { cache = Cache.set at (cache_head_key e.chain_id) (decimal num) 300000 stored })

abbrev pub cache_event : Engine → OutboxRow → ℕ → Db → Unit {0} × Db
cache_event e item at db = (
  tt,
  record db {
    cache = Cache.set at (event_key e item) (e.payload_json item.payload) 1800000 db.cache;
  },
)

-- the `switch` on the type of the item
unfoldable pub fill_cache : Engine → OutboxRow → Action (Unit {0})
fill_cache e item = do
  at ← now
  choose (text_eq item.event_type (codes "block_cached")) (memory (cache_block e item at)) (
      choose
        (text_eq item.event_type (codes "transfer_cached")
          || text_eq item.event_type (codes "event_cached"))
        (memory (cache_event e item at)) (fail unknown_event))

abbrev pub settle_item : Engine → OutboxRow → Result (Unit {0}) → Action (Unit {0})
settle_item e item (ok done) = mark_outbox_done item.id
settle_item e item (err x) = do
  at ← now
  mark_outbox_retry item.id (suc item.retry_count) (at + 1000 * suc item.retry_count)
      (leb e.max_retries (suc item.retry_count))

-- `processOutbox`
unfoldable pub process_outbox : Engine → OutboxRow → Action (Unit {0})
unfolding fill_cache parse_block_num
process_outbox e item = do filled ← attempt (fill_cache e item); settle_item e item filled

unfoldable pub process_all : Engine → List OutboxRow → Action (Unit {0})
unfolding process_outbox
process_all e [] = pure tt
process_all e (item ∷ batch) = do attempt (process_outbox e item); process_all e batch

-- a round of `outboxWorker`
unfoldable pub outbox_round : Engine → Action (Unit {0})
unfolding process_all
outbox_round e = do batch ← claim_outbox_batch 10; process_all e batch

abbrev or_zero : Result ℕ → ℕ
or_zero (ok n) = n
or_zero (err e) = 0

-- `Status`: a count that fails is 0
unfoldable pub status : Engine → Node → Action Status
status e node = do
  cp ← load_checkpoint
  let head = head_of node.block_number
  pending ← attempt count_pending_headers
  outbox ← attempt count_pending_outbox
  blocks ← attempt count_blocks
  txs ← attempt count_txs
  events ← attempt count_events
  state ← memory (λ db. (db.engine, db))
  pure (record {
    last_block_number = cp.last_block_number;
    last_block_hash = cp.last_block_hash;
    confirmed_block_number = cp.confirmed_block_number;
    head_block_number = head;
    lag_blocks = if ltb cp.last_block_number head then head - cp.last_block_number else 0;
    pending_headers = or_zero pending;
    pending_outbox = or_zero outbox;
    blocks_synced = or_zero blocks;
    txs_synced = or_zero txs;
    events_synced = or_zero events;
    watch_contracts = watch_count e.events;
    reorgs_handled = state.reorgs;
    last_gap_scan_at = state.last_gap_scan;
    last_gaps_found = state.last_gaps_found;
    last_hash_mismatches = state.last_hash_mismatch;
    last_gaps_enqueued = state.last_gaps_enqueued;
  })

-- `GetCachedBlock`
unfoldable pub get_cached_block : Engine → ℕ → Action Text
get_cached_block e num = do
  at ← now
  memory (λ db. (Cache.get at (cache_block_key e.chain_id num) db.cache, db))
