-- ===== src/Indexer/Store.antt =====
-- internal/indexer/store.go: the checkpoint, the pending headers and the blocks. Every statement is
-- restricted to the chain of the store, whose rows the tables hold.
pub mod Outbox
pub mod Logs
pub mod Queries
use gin_demo.Prelude.{
  ℕ, Bool, true, false, not, ◌&&◌, ◌||◌, Option, none, some, List, [], ◌∷◌, ◌==◌, leb, ltb, min,
  if◌then◌else◌, find_first, select, take, update_where, any, length, map, sort_by,
}
use gin_demo.Prelude.Text.{Text, text_eq}
use gin_demo.Sql.{Result, ok, err, duplicate, pure, ◌>>=◌, ◌>>◌, now, exec, query, first_row}
use gin_demo.Schema.{Db, Action}
use gin_demo.Indexer.Types.{
  Tables, Checkpoint, PendingHeader, BlockRow, BlockStatus, BlockMeta, block_tag, empty_checkpoint,
}

-- a statement that always succeeds and whose number of rows nobody asks for
abbrev pub change : (Tables → Tables) → Db → Result (Unit {0} × Db)
change f db = ok (tt, record db { indexer = f db.indexer })

abbrev pub or_default : Option Checkpoint → Checkpoint
or_default none = empty_checkpoint
or_default (some cp) = cp

-- `LoadCheckpoint`, from the tables that the statement sees
unfoldable pub load_checkpoint_from : Db → Action Checkpoint
load_checkpoint_from seen = query (λ db. ok (or_default seen.indexer.checkpoint))

unfoldable pub load_checkpoint : Action Checkpoint
load_checkpoint = query (λ db. ok (or_default db.indexer.checkpoint))

abbrev pub greatest : ℕ → ℕ → ℕ
greatest a b = if leb a b then b else a

abbrev pub advanced : ℕ → Text → ℕ → ℕ → Option Checkpoint → Checkpoint
advanced last hash confirmed at none = record {
  last_block_number = last;
  last_block_hash = hash;
  confirmed_block_number = confirmed;
  updated_at = at;
}
advanced last hash confirmed at (some cp) = record {
  last_block_number = last;
  last_block_hash = hash;
  confirmed_block_number = greatest cp.confirmed_block_number confirmed;
  updated_at = at;
}

-- `UpsertCheckpointTx`
unfoldable pub upsert_checkpoint : ℕ → Text → ℕ → Action (Unit {0})
upsert_checkpoint last hash confirmed = do
  at ← now
  exec (change (λ t. record t { checkpoint = some (advanced last hash confirmed at t.checkpoint) }))

abbrev pub rolled_back : ℕ → Text → ℕ → Option Checkpoint → Option Checkpoint
rolled_back to hash at none = none
rolled_back to hash at (some cp) = some record {
  last_block_number = to;
  last_block_hash = hash;
  confirmed_block_number = min cp.confirmed_block_number to;
  updated_at = at;
}

-- `RollbackCheckpointTx`
unfoldable pub rollback_checkpoint : ℕ → Text → Action (Unit {0})
rollback_checkpoint to hash = do
  at ← now
  exec (change (λ t. record t { checkpoint = rolled_back to hash at t.checkpoint }))

abbrev pub is_header : ℕ → PendingHeader → Bool
is_header num h = h.block_number == num

abbrev pub with_header : ℕ → Text → ℕ → List PendingHeader → List PendingHeader
with_header num hash at headers =
    if any (is_header num) headers
    then update_where (is_header num) (λ h. record h { block_hash = hash; enqueued_at = at })
        headers
    else record { block_number = num; block_hash = hash; enqueued_at = at } ∷ headers

-- `EnqueuePendingHeader`
unfoldable pub enqueue_pending_header : ℕ → Text → Action (Unit {0})
enqueue_pending_header num hash = do
  at ← now
  exec (change (λ t. record t { pending_headers = with_header num hash at t.pending_headers }))

-- `DeletePendingHeaderTx`
unfoldable pub delete_pending_header : ℕ → Action (Unit {0})
delete_pending_header num = exec (
    change
      (λ t. record t { pending_headers = select (λ h. not (is_header num h)) t.pending_headers }))

abbrev pub header_meta : PendingHeader → BlockMeta
header_meta h = record { number = h.block_number; hash = h.block_hash }

-- `ListPendingHeaders`
unfoldable pub list_pending_headers : ℕ → Action (List BlockMeta)
list_pending_headers limit = query (λ db.
    let sorted = sort_by (λ h k. leb h.block_number k.block_number) db.indexer.pending_headers in
    ok (map header_meta (take limit sorted)))

-- `CountPendingHeaders`
unfoldable pub count_pending_headers : Action ℕ
count_pending_headers = query (λ db. ok (length db.indexer.pending_headers))

abbrev pub is_orphaned : BlockRow → Bool
is_orphaned b = block_tag b.status == block_tag BlockStatus.orphaned

abbrev pub is_live_at : ℕ → BlockRow → Bool
is_live_at num b = b.block_number == num && not (is_orphaned b)

-- `GetBlockByNumber`
unfoldable pub get_block_by_number : ℕ → Action BlockRow
get_block_by_number num = query (λ db. first_row (find_first (is_live_at num) db.indexer.blocks))

abbrev pub as_orphaned : BlockRow → BlockRow
as_orphaned b = record b { status = BlockStatus.orphaned }

-- `MarkOrphanedFromTx`
unfoldable pub mark_orphaned_from : ℕ → Action (Unit {0})
mark_orphaned_from from = exec (
    change (λ t. record t {
      blocks =
          update_where (λ b. leb from b.block_number && not (is_orphaned b)) as_orphaned t.blocks;
    }))

-- the assignments of `ON DUPLICATE KEY UPDATE`: an orphaned row is pending again, whatever the status
-- of the new one
abbrev pub refreshed : BlockRow → BlockRow → BlockRow
refreshed b old = record {
  block_number = old.block_number;
  block_hash = b.block_hash;
  parent_hash = b.parent_hash;
  block_timestamp = b.block_timestamp;
  tx_count = b.tx_count;
  gas_used = b.gas_used;
  status = if is_orphaned old then BlockStatus.pending else b.status;
  synced_at = b.synced_at;
}

abbrev pub has_number : ℕ → BlockRow → Bool
has_number num b = b.block_number == num

abbrev pub has_hash : Text → BlockRow → Bool
has_hash hash b = text_eq b.block_hash hash

abbrev pub with_blocks : List BlockRow → Db → Result (Unit {0} × Db)
with_blocks rows db = change (λ t. record t { blocks = rows }) db

-- `UpsertBlockTx`: the row with the number is refreshed, which fails if another row has the hash;
-- without one, the row with the hash is, which keeps its number; without either, the row is new
unfoldable pub put_block : BlockRow → Db → Result (Unit {0} × Db)
put_block b db =
    let rows = db.indexer.blocks in
    if any (has_number b.block_number) rows
    then (if any (λ x. has_hash b.block_hash x && not (has_number b.block_number x)) rows
        then err duplicate
        else with_blocks (update_where (has_number b.block_number) (refreshed b) rows) db)
    else (if any (has_hash b.block_hash) rows
        then with_blocks (update_where (has_hash b.block_hash) (refreshed b) rows) db
        else with_blocks (b ∷ rows) db)

unfoldable pub upsert_block : BlockRow → Action (Unit {0})
unfolding put_block
upsert_block b = exec (put_block b)

abbrev pub is_confirmable : ℕ → BlockRow → Bool
is_confirmable up_to b =
    leb b.block_number up_to && block_tag b.status == block_tag BlockStatus.pending

-- `ConfirmBlocksUpToTx`
unfoldable pub confirm_blocks_up_to : ℕ → Action (Unit {0})
confirm_blocks_up_to up_to = exec (
    change (λ t. record t {
      blocks =
          update_where (is_confirmable up_to) (λ b. record b { status = BlockStatus.confirmed })
            t.blocks;
    }))
