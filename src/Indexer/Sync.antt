-- ===== src/Indexer/Sync.antt =====
-- internal/indexer/engine.go, `syncBlock`: a block is copied into the tables in one transaction, with
-- its transactions and events, and its deposits are captured if it counts as confirmed. The node may
-- answer otherwise when it is asked again: `later` stands for its answers once the rows are written.
-- The balance refreshes that run aside are left out.
pub mod Books
pub mod Confirmed
pub mod Audit
pub mod Lock
pub mod Finish
use gin_demo.Prelude.{
  ℕ, suc, ◌+◌, ◌-◌, Bool, true, false, not, ◌&&◌, ◌||◌, Option, none, some, List, [], ◌∷◌, ◌==◌,
  leb, ltb, if◌then◌else◌, length,
}
use gin_demo.Prelude.Text.{Text, codes, to_lower}
use gin_demo.Sql.{
  Result, ok, err, pure, lift, ◌>>=◌, ◌>>◌, now, in_tx, memory, choose, attempt, deferred,
}
use gin_demo.Schema.{Db, Action}
use gin_demo.Cache as Cache
use gin_demo.Exchange.Wei.{decimal}
use gin_demo.Exchange.Deposit.{DepositProcessor, enabled, confirm_depth, capture_native_tx}
use gin_demo.Indexer.Types.{BlockRow, BlockStatus, TxRow, Payload, Checkpoint, empty_checkpoint}
use gin_demo.Indexer.Node.{Node, Block, ChainTx, Receipt}
use gin_demo.Indexer.Store.{
  upsert_block, confirm_blocks_up_to, load_checkpoint_from, upsert_checkpoint,
  delete_pending_header,
}
use gin_demo.Indexer.Store.Logs.{upsert_transaction}
use gin_demo.Indexer.Store.Outbox.{insert_outbox}
use gin_demo.Indexer.EventLogs.{persist_all, capture_logs}
use gin_demo.Indexer.Engine.{Engine, answered, lock_key}
use gin_demo.Indexer.Reorg.{detect_and_handle_reorg}

abbrev pub block_row : ℕ → Block → ℕ → BlockRow
block_row num blk at = record {
  block_number = num;
  block_hash = blk.hash;
  parent_hash = blk.parent_hash;
  block_timestamp = blk.time;
  tx_count = length blk.transactions;
  gas_used = blk.gas_used;
  status = BlockStatus.pending;
  synced_at = at;
}

abbrev lowered : Option Text → Option Text
lowered none = none
lowered (some s) = some (to_lower s)

abbrev or_empty : Option Text → Text
or_empty none = []
or_empty (some s) = s

abbrev logs_json : Engine → Text → Option Receipt → Action (Unit {0})
logs_json e block_hash none = pure tt
logs_json e block_hash (some rc) = persist_all e block_hash rc.logs

abbrev gas_of : Option Receipt → Option ℕ
gas_of none = none
gas_of (some rc) = some rc.gas_used

abbrev status_of : Option Receipt → Option ℕ
status_of none = none
status_of (some rc) = some rc.status

abbrev store_from :
    Engine → ℕ → Text → ℕ → ℕ → ChainTx → Option Receipt → Option Text → Action (Unit {0})
store_from e num block_hash at i tx rc none = pure tt
store_from e num block_hash at i tx rc (some from) = do
  logs_json e block_hash rc
  upsert_transaction (record {
    tx_hash = tx.hash;
    block_number = num;
    block_hash = block_hash;
    tx_index = i;
    from_addr = to_lower from;
    to_addr = lowered tx.to;
    value_wei = decimal tx.value;
    gas_used = gas_of rc;
    tx_status = status_of rc;
    synced_at = at;
  })

-- the first loop of `syncBlock`: a transaction without a sender is passed over
unfoldable pub store_txs : Engine → Node → ℕ → Text → ℕ → ℕ → List ChainTx → Action (Unit {0})
store_txs e node num block_hash at i [] = pure tt
store_txs e node num block_hash at i (tx ∷ txs) = do
  store_from e num block_hash at i tx (node.transaction_receipt tx.hash) tx.sender
  store_txs e node num block_hash at (suc i) txs

abbrev succeeded : Option Receipt → Bool
succeeded none = false
succeeded (some rc) = rc.status == 1

abbrev capture_receipt_logs :
    Engine → DepositProcessor → Db → ℕ → Option Receipt → Action (Unit {0})
capture_receipt_logs e p base num none = pure tt
capture_receipt_logs e p base num (some rc) =
    choose (rc.status == 1) (capture_logs e.events p base num rc.logs) (pure tt)

abbrev capture_from :
    Engine → DepositProcessor → Db → ℕ → ChainTx → Option Receipt → Option Text → Action (Unit {0})
capture_from e p base num tx rc none = pure tt
capture_from e p base num tx rc (some from) = do
  capture_native_tx p base num tx.hash (to_lower from) (or_empty (lowered tx.to)) (decimal tx.value)
      (succeeded rc)
  capture_receipt_logs e p base num rc

-- the second loop of `syncBlock`
unfoldable pub capture_txs :
    Engine → Node → DepositProcessor → Db → ℕ → List ChainTx → Action (Unit {0})
capture_txs e later p base num [] = pure tt
capture_txs e later p base num (tx ∷ txs) = do
  capture_from e p base num tx (later.transaction_receipt tx.hash) tx.sender
  capture_txs e later p base num txs

-- a failed `BlockNumber` leaves 0
abbrev pub head_of : Option ℕ → ℕ
head_of none = 0
head_of (some head) = head

abbrev pub depth_of : Engine → ℕ
depth_of e = elim e.deposit [ none ↦ e.confirm_depth | some p ↦ confirm_depth p ]

-- `confirmedUpTo`
unfoldable pub confirmed_up_to : ℕ → ℕ → ℕ → ℕ
confirmed_up_to head depth num =
    if ltb num head then (if leb depth (head - num) then num else 0) else num

abbrev capture_if : Engine → Node → Option DepositProcessor → Db → ℕ → ℕ → Block → Action (Unit {0})
capture_if e later none base num confirmed blk = pure tt
capture_if e later (some p) base num confirmed blk =
    choose (confirmed == num && enabled p) (capture_txs e later p base num blk.transactions)
      (pure tt)

abbrev cp_of : Result Checkpoint → Checkpoint
cp_of (err e) = empty_checkpoint
cp_of (ok cp) = cp

-- the rows after the transactions: confirmations, checkpoint, outbox and pending header. The
-- checkpoint is read past the transaction.
unfoldable pub finish_block : Db → ℕ → ℕ → Block → Action (Unit {0})
finish_block base num confirmed blk = do
  choose (ltb 0 confirmed) (confirm_blocks_up_to confirmed) (pure tt)
  cp ← attempt (load_checkpoint_from base)
  choose (ltb (cp_of cp).last_block_number num) (upsert_checkpoint num blk.hash confirmed) (pure tt)
  insert_outbox (codes "block_cached")
      (Payload.block_payload num blk.hash (length blk.transactions) blk.gas_used blk.time)
  delete_pending_header num

-- the transaction of `syncBlock`
unfoldable pub sync_tx : Engine → Node → Node → ℕ → Block → Db → Action (Unit {0})
unfolding store_txs capture_txs confirmed_up_to finish_block
sync_tx e node later num blk base = do
  at ← now
  upsert_block (block_row num blk at)
  store_txs e node num blk.hash at 0 blk.transactions
  let confirmed = confirmed_up_to (head_of later.block_number) (depth_of e) num
  capture_if e later e.deposit base num confirmed blk
  finish_block base num confirmed blk

unfoldable pub sync_locked : Engine → Node → Node → ℕ → Action (Unit {0})
unfolding sync_tx
sync_locked e node later num = do
  blk ← lift (answered (node.block_by_number num))
  detect_and_handle_reorg e blk
  in_tx (λ base. sync_tx e node later num blk base)

abbrev pub take_lock : Engine → ℕ → ℕ → Db → Bool × Db
take_lock e num at db =
    let (free, cache) = Cache.set_nx at (lock_key e num) (codes "1") 30000 db.cache in
    (free, record db { cache = cache })

abbrev pub drop_lock : Engine → ℕ → Db → Db
drop_lock e num db = record db { cache = Cache.del (lock_key e num) db.cache }

-- `syncBlock`: another holder of the lock is left to it
unfoldable pub sync_block : Engine → Node → Node → ℕ → Action (Unit {0})
unfolding sync_locked
sync_block e node later num = do
  at ← now
  free ← memory (take_lock e num at)
  choose free (deferred (drop_lock e num) (sync_locked e node later num)) (pure tt)
