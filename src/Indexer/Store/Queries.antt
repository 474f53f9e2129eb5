-- ===== src/Indexer/Store/Queries.antt =====
-- internal/indexer/store.go: the statements that only read. A row joins a block of its number that
-- is not orphaned; block numbers are a primary key, so there is at most one.
use gin_demo.Prelude.{
  ℕ, Bool, not, ◌&&◌, ◌||◌, Option, none, some, List, [], ◌∷◌, ◌==◌, leb, ltb, select, take, any,
  length, count_where, sort_by, find_first,
}
use gin_demo.Prelude.Text.{Text, text_eq, to_lower, is_empty}
use gin_demo.Sql.{ok, query}
use gin_demo.Schema.{Db, Action}
use gin_demo.Indexer.Types.{BlockRow, TxRow, EventLogRow, GapScanAudit, BlockMeta}
use gin_demo.Indexer.Store.{is_orphaned, is_live_at}

-- `CountBlocks`
unfoldable pub count_blocks : Action ℕ
count_blocks = query (λ db. ok (count_where (λ b. not (is_orphaned b)) db.indexer.blocks))

-- `CountTxs`
unfoldable pub count_txs : Action ℕ
count_txs = query (λ db. ok (length db.indexer.transactions))

-- `ListBlocks`
unfoldable pub list_blocks : ℕ → ℕ → Action (List BlockRow)
list_blocks from limit = query (λ db.
    let found = select (λ b. not (is_orphaned b) && leb from b.block_number) db.indexer.blocks in
    ok (take limit (sort_by (λ b c. leb b.block_number c.block_number) found)))

-- `ORDER BY block_number DESC, index ASC`
abbrev newest_first : ℕ → ℕ → ℕ → ℕ → Bool
newest_first block index block2 index2 = ltb block2 block || (block == block2 && leb index index2)

-- `ListTransactions`: a block number of 0 is no restriction
unfoldable pub list_transactions : ℕ → ℕ → Action (List TxRow)
list_transactions num limit = query (λ db.
    let found = select (λ x. num == 0 || x.block_number == num) db.indexer.transactions in
    ok (
      take limit
        (sort_by (λ x y. newest_first x.block_number x.tx_index y.block_number y.tx_index) found)))

abbrev pub block_meta : Option BlockRow → Option BlockMeta
block_meta none = none
block_meta (some b) = some record { number = b.block_number; hash = b.block_hash }

abbrev pub is_live_within : ℕ → ℕ → ℕ → BlockRow → Bool
is_live_within from to n b = is_live_at n b && leb from b.block_number && leb b.block_number to

-- the map from a number to the row of a block in the range
abbrev pub synced_blocks : ℕ → ℕ → Db → ℕ → Option BlockMeta
synced_blocks from to db n = block_meta (find_first (is_live_within from to n) db.indexer.blocks)

-- `MapSyncedBlocksInRange`
unfoldable pub map_synced_blocks_in_range : ℕ → ℕ → Action (ℕ → Option BlockMeta)
map_synced_blocks_in_range from to = query (λ db. ok (synced_blocks from to db))

abbrev scan_time : List GapScanAudit → ℕ
scan_time [] = 0
scan_time (a ∷ _) = a.scanned_at

-- `ListRecentGapScans`, with the time of the last one
unfoldable pub list_recent_gap_scans : ℕ → Action (List GapScanAudit × ℕ)
list_recent_gap_scans limit =
    query (λ db. let recent = take limit db.indexer.gap_scans in ok (recent, scan_time recent))

abbrev on_chain : List BlockRow → EventLogRow → Bool
on_chain blocks e = any (is_live_at e.block_number) blocks

-- `CountEvents`
unfoldable pub count_events : Action ℕ
count_events = query (λ db. ok (count_where (on_chain db.indexer.blocks) db.indexer.event_logs))

abbrev wanted : Text → Text → ℕ → EventLogRow → Bool
wanted contract event_name num e =
    (is_empty contract || text_eq e.contract_address (to_lower contract))
    && (is_empty event_name || text_eq e.event_name event_name)
    && (num == 0 || e.block_number == num)

-- `ListEvents`: an empty text and a block number of 0 are no restriction
unfoldable pub list_events : Text → Text → ℕ → ℕ → Action (List EventLogRow)
list_events contract event_name num limit = query (λ db.
    let found =
      select (λ e. on_chain db.indexer.blocks e && wanted contract event_name num e)
        db.indexer.event_logs in
    ok (
      take limit (
        sort_by (λ x y. newest_first x.block_number x.log_index y.block_number y.log_index) found)))
