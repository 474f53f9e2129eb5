-- ===== src/Indexer/Tests.antt =====
-- The indexer's theorems at a small chain.
mod Scans
use gin_demo.Prelude.{
  ℕ, ◌≡◌, ◌≤◌, ◌<◌, ◌↔◌, ◌⊎◌, All, refl, true, false, none, some, List, [], ◌∷◌, inl, inr, arith,
  any, find_first, count_where,
}
use gin_demo.Prelude.Text.{Text, codes, to_lower, text_eq, lower_byte}
use gin_demo.Sql.{World, ok, ◌>>=◌}
use gin_demo.Sql.Rules.{From}
use gin_demo.Sql.Runs.{Runs}
use gin_demo.Schema.{Db, empty_db}
use gin_demo.Exchange.Deposit.{DepositProcessor, confirm_depth}
use gin_demo.Exchange.Ledger.Audit.{IsAudited, empty-IsAudited}
use gin_demo.Exchange.Deposit.Audit.{IsCreditedOnce}
use gin_demo.Indexer.Types.{
  Checkpoint, BlockRow, BlockStatus, OutboxRow, OutboxStatus, Payload, empty_tables, new_state,
}
use gin_demo.Indexer.Node.{Node, Block, ChainTx, Receipt}
use gin_demo.Indexer.Events.{EventRegistry, Values}
use gin_demo.Indexer.Engine.{Engine, run_backfill, backfill_start}
use gin_demo.Indexer.Engine.Backfill.{run_backfill-past_head}
use gin_demo.Indexer.Reorg.{roll_back_tx}
use gin_demo.Indexer.Reorg.Rollback.{RolledBack, roll_back_tx-RolledBack}
use gin_demo.Indexer.Sync.{sync_tx, sync_block, confirmed_up_to}
use gin_demo.Indexer.Sync.Audit.{sync_block-IsAudited}
use gin_demo.Indexer.Sync.Confirmed.{sync_tx-unconfirmed, confirmed_up_to-confirmed}
use gin_demo.Indexer.OutboxWorker.{process_outbox}
use gin_demo.Indexer.OutboxWorker.Outcome.{Settled, process_outbox-Settled}

abbrev pub processor : DepositProcessor
processor = record {
  exchange_enabled = true;
  deposit_enabled = true;
  exchange_confirm_depth = 6;
  indexer_confirm_depth = 12;
  registry = none;
  tokens = [];
  webhook = none;
}

abbrev pub engine : Engine
engine = record {
  chain_id = 1;
  batch_size = 3;
  confirm_depth = 12;
  hash_verify_window = 10;
  max_retries = 5;
  jobs_capacity = 4;
  events = record { by_address = []; to_hex = λ bytes. bytes };
  deposit = some processor;
  payload_json = λ p. codes "{}";
  args_json = λ values. ok (codes "{}");
  topics_json = λ topics. codes "[]";
}

abbrev pub transfer : ChainTx
transfer = record {
  hash = codes "0x7";
  sender = some (codes "0xA");
  to = some (codes "0xB");
  value = 5;
}

abbrev pub block : ℕ → Text → Text → Block
block num hash parent = record {
  number = num;
  hash = hash;
  parent_hash = parent;
  time = 1;
  gas_used = 21000;
  transactions = transfer ∷ [];
}

-- a node whose chain ends at block 9
abbrev pub node : Node
node = record {
  block_number = some 9;
  block_by_number = λ num. some (block num (codes "0xb") (codes "0xa"));
  transaction_receipt = λ hash. some (record { status = 1; gas_used = 21000; logs = [] });
}

abbrev pub block_at : ℕ → Text → BlockRow
block_at num hash = record {
  block_number = num;
  block_hash = hash;
  parent_hash = codes "0x0";
  block_timestamp = 1;
  tx_count = 0;
  gas_used = 0;
  status = BlockStatus.confirmed;
  synced_at = 1;
}

-- the blocks 7 and 8 are synced
abbrev pub synced_to : ℕ → Db
synced_to last = record empty_db {
  indexer = record empty_tables {
    blocks = block_at 8 (codes "0x8") ∷ block_at 7 (codes "0xA") ∷ [];
    checkpoint = some record {
      last_block_number = last;
      last_block_hash = codes "0x8";
      confirmed_block_number = last;
      updated_at = 1;
    };
  };
}

abbrev pub world_at : ℕ → World Db
world_at last = record { db = synced_to last; faults = []; clock = 50 }

run_backfill-past_head_example :
    (run_backfill engine node (world_at 9)).1.db.engine.jobs ≡ 10 ∷ 11 ∷ 12 ∷ []
run_backfill-past_head_example =
    run_backfill-past_head engine node (world_at 9) 9 refl refl refl (omega arith) (omega arith)
      (omega arith)

roll_back_tx-RolledBack_example :
    From
      (synced_to 8)
      (roll_back_tx engine 8 (codes "0x9"))
      (λ _ d'. RolledBack 8 (codes "0x9") (synced_to 8) d')
roll_back_tx-RolledBack_example = roll_back_tx-RolledBack engine 8 (codes "0x9") (synced_to 8)

empty_books : IsAudited (synced_to 8)
empty_books = empty-IsAudited (synced_to 8) refl refl

no_credits : IsCreditedOnce (synced_to 8)
no_credits = λ id. omega arith

sync_block-IsAudited_example :
    IsAudited (sync_block engine node node 9 (world_at 8)).1.db
    × IsCreditedOnce (sync_block engine node node 9 (world_at 8)).1.db
sync_block-IsAudited_example =
    sync_block-IsAudited engine node node 9 (world_at 8) tt empty_books no_credits

sync_tx-unconfirmed_example :
    From
      (synced_to 6)
      (sync_tx engine node node 7 (block 7 (codes "0xA") (codes "0x6")) (synced_to 6))
      (λ _ d'. d'.exchange ≡ empty_db.exchange)
unfolding confirm_depth
sync_tx-unconfirmed_example =
    sync_tx-unconfirmed engine node node 7 9 (block 7 (codes "0xA") (codes "0x6")) (synced_to 6)
      (synced_to 6) refl (omega arith) (omega arith) (omega arith)

abbrev item : OutboxRow
item = record {
  id = 1;
  event_type = codes "unknown";
  payload = Payload.block_payload 8 (codes "0x8") 0 0 1;
  status = OutboxStatus.processing;
  retry_count = 4;
  next_retry_at = 1;
  created_at = 1;
  updated_at = 1;
}

abbrev queued_db : Db
queued_db = record empty_db { indexer = record empty_tables { outbox = item ∷ [] } }
