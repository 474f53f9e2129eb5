-- ===== src/Indexer/Reorg.antt =====
-- internal/indexer/engine.go, `detectAndHandleReorg`: a block whose parent is not the stored one
-- orphans the stored chain from the parent's number on, and reverses the deposits of those blocks.
pub mod Rollback
use gin_demo.Prelude.{ℕ, suc, ◌+◌, ◌-◌, Bool, true, false, Option, none, some, ◌==◌, if◌then◌else◌}
use gin_demo.Prelude.Text.{equal_fold, Text, text_eq, to_lower}
use gin_demo.Sql.{ok, pure, ◌>>=◌, ◌>>◌, in_tx, ignore, memory, choose, optional}
use gin_demo.Schema.{Db, Action}
use gin_demo.Cache as Cache
use gin_demo.Exchange.Deposit.{DepositProcessor, enabled, handle_reorg_tx}
use gin_demo.Indexer.Types.{BlockRow, EngineState}
use gin_demo.Indexer.Node.{Block}
use gin_demo.Indexer.Store.{
  get_block_by_number, mark_orphaned_from, rollback_checkpoint, enqueue_pending_header,
}
use gin_demo.Indexer.Engine.{Engine, send_job, cache_head_key}

abbrev pub reverse_deposits : Option DepositProcessor → ℕ → Action (Unit {0})
reverse_deposits none from = pure tt
reverse_deposits (some p) from = choose (enabled p) (handle_reorg_tx p from) (pure tt)

unfoldable pub roll_back_tx : Engine → ℕ → Text → Action (Unit {0})
unfolding enabled
roll_back_tx e prev parent_hash = do
  mark_orphaned_from prev
  rollback_checkpoint prev parent_hash
  reverse_deposits e.deposit prev

-- `e.cache.Del(…)`, `e.reorgs.Add(1)`
abbrev pub forget_head : Engine → Db → Unit {0} × Db
forget_head e db = (
  tt,
  record db {
    cache = Cache.del (cache_head_key e.chain_id) db.cache;
    engine = record (db.engine) { reorgs = suc db.engine.reorgs };
  },
)

unfoldable pub roll_back : Engine → Block → Action (Unit {0})
unfolding roll_back_tx
roll_back e blk = do
  in_tx (λ base. roll_back_tx e (blk.number - 1) blk.parent_hash)
  memory (forget_head e)
  ignore (enqueue_pending_header blk.number blk.hash)
  send_job e blk.number

abbrev pub compare_parent : Engine → Block → Option BlockRow → Action (Unit {0})
compare_parent e blk none = pure tt
compare_parent e blk (some prev) =
    choose (equal_fold prev.block_hash blk.parent_hash) (pure tt) (roll_back e blk)

-- `detectAndHandleReorg`
unfoldable pub detect_and_handle_reorg : Engine → Block → Action (Unit {0})
unfolding roll_back
detect_and_handle_reorg e blk =
    choose (blk.number == 0) (pure tt)
      (do prev ← optional (get_block_by_number (blk.number - 1)); compare_parent e blk prev)
