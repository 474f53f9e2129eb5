-- ===== src/Schema.antt =====
-- The MySQL database that the packages share: the tables that `EnsureSchema` of each package
-- creates (internal/exchange/schema.go, internal/webhook/schema.go, internal/tx/schema.go,
-- internal/balance/schema.go, internal/indexer/mysql.go); beside them stand the cache, what the indexer keeps in memory, and the
-- hashes of the transactions that the service has handed to the node, newest first, which no
-- transaction of the program changes.
use gin_demo.Prelude.{List, []}
use gin_demo.Prelude.Text.{Text}
use gin_demo.Exchange.Types as Exchange
use gin_demo.Webhook.Types as Webhook
use gin_demo.Tx.Types as Tx
use gin_demo.Indexer.Types as Indexer
use gin_demo.Cache as Cache
use gin_demo.Balance.Types as Balance
use gin_demo.Sql.{Session}

pub record Db : Type 0 where
  pub exchange : Exchange.Tables
  pub webhook : Webhook.Tables
  pub tracker : Tx.Tables
  pub balance : Balance.Tables
  pub indexer : Indexer.Tables
  pub engine : Indexer.EngineState
  pub cache : Cache.MemoryCache
  pub wire : List Text

abbrev pub empty_db : Db
empty_db = record {
  exchange = Exchange.empty_tables;
  webhook = Webhook.empty_tables;
  tracker = Tx.empty_tables;
  balance = Balance.empty_tables;
  indexer = Indexer.empty_tables;
  engine = Indexer.new_state;
  cache = Cache.new_memory_cache;
  wire = [];
}

abbrev pub Action : Type 0 → Type 0
Action A = Session Db A
