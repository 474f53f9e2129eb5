-- ===== src/Indexer/Engine.antt =====
-- internal/indexer/engine.go: the engine, its channel of jobs, and what puts blocks into it. A send
-- that does not block is taken when the channel has room. Nothing takes jobs out during one step of
-- the model, as if the workers were busy.
pub mod Backfill
use gin_demo.Prelude.{
  ℕ, zero, suc, ◌+◌, ◌-◌, ◌*◌, ◌%◌, ◌^◌, Bool, true, false, not, Option, none, some, List, [], ◌∷◌,
  ◌++◌, ◌==◌, leb, ltb, if◌then◌else◌, length,
}
use gin_demo.Prelude.Text.{Text, codes}
use gin_demo.Exchange.Wei.{decimal}
use gin_demo.Sql.{Result, ok, err, node_error, pure, fail, lift, ◌>>=◌, ◌>>◌, memory, choose}
use gin_demo.Schema.{Db, Action}
use gin_demo.Exchange.Deposit.{DepositProcessor}
use gin_demo.Indexer.Types.{BlockMeta, EngineState, Payload, Checkpoint}
use gin_demo.Indexer.Store.{enqueue_pending_header, list_pending_headers, load_checkpoint}
use gin_demo.Indexer.Events.{EventRegistry, Values}
use gin_demo.Indexer.Node.{Node, Block}

-- `Engine`, with the settings that it reads; `encoding/json` is a parameter.
pub record Engine : Type 0 where
  pub chain_id : ℕ
  pub batch_size : ℕ
  pub confirm_depth : ℕ
  pub hash_verify_window : ℕ
  pub max_retries : ℕ
  pub jobs_capacity : ℕ
  pub events : EventRegistry
  pub deposit : Option DepositProcessor
  pub payload_json : Payload → Text
  pub args_json : Values → Result Text
  pub topics_json : List Text → Text

-- `lockKey`, `cacheBlockKey`, `cacheHeadKey`
abbrev pub lock_key : Engine → ℕ → Text
lock_key e num = codes "indexer:lock:" ++ decimal e.chain_id ++ codes ":" ++ decimal num

abbrev pub cache_block_key : ℕ → ℕ → Text
cache_block_key chain num = codes "indexer:block:" ++ decimal chain ++ codes ":" ++ decimal num

abbrev pub cache_head_key : ℕ → Text
cache_head_key chain = codes "indexer:head:" ++ decimal chain

abbrev pub room : ℕ → List ℕ → Bool
room capacity jobs = ltb (length jobs) capacity

-- `select { case e.jobs <- n: default: }`
abbrev pub send : ℕ → ℕ → List ℕ → List ℕ
send capacity n jobs = if room capacity jobs then jobs ++ n ∷ [] else jobs

abbrev pub with_jobs : (List ℕ → List ℕ) → Db → Db
with_jobs f db = record db { engine = record (db.engine) { jobs = f db.engine.jobs } }

unfoldable pub send_job : Engine → ℕ → Action (Unit {0})
send_job e n = memory (λ db. (tt, with_jobs (send e.jobs_capacity n) db))

-- `EnqueueHeader`: after 3 seconds without room the job is given up, and its header stays pending
unfoldable pub enqueue_header : Engine → ℕ → Text → Action (Unit {0})
enqueue_header e num hash = do enqueue_pending_header num hash; send_job e num

abbrev pub send_all : ℕ → List BlockMeta → List ℕ → List ℕ
send_all capacity [] jobs = jobs
send_all capacity (p ∷ pending) jobs = send_all capacity pending (send capacity p.number jobs)

-- one tick of `recoverPendingLoop`
unfoldable pub recover_pending : Engine → Action (Unit {0})
recover_pending e = do
  pending ← list_pending_headers e.batch_size
  memory (λ db. (tt, with_jobs (send_all e.jobs_capacity pending) db))

abbrev pub answered : {A : Type 0} → Option A → Result A
answered none = err node_error
answered (some a) = ok a

-- where the backfill starts
unfoldable pub backfill_start : ℕ → ℕ
backfill_start last = if last == 0 then 0 else (last + 1) % 2 ^ 64

-- where it ends: `end-start` is a difference of `uint64`
unfoldable pub backfill_end : ℕ → ℕ → ℕ → ℕ
backfill_end batch start head =
    if ltb batch ((head + 2 ^ 64 - start) % 2 ^ 64)
    then (start + batch + 2 ^ 64 - 1) % 2 ^ 64
    else head

-- The loop of `runBackfill`, which leaves when the channel is full. Every round but the last sends
-- a job, so one round more than the channel has room for is enough.
unfoldable pub send_range : ℕ → ℕ → ℕ → ℕ → List ℕ → List ℕ
send_range capacity zero n end jobs = jobs
send_range capacity (suc rounds) n end jobs =
    let rest = send_range capacity rounds ((n + 1) % 2 ^ 64) end (jobs ++ n ∷ []) in
    if leb n end then (if room capacity jobs then rest else jobs) else jobs

abbrev pub backfill_jobs : Engine → ℕ → ℕ → List ℕ → List ℕ
backfill_jobs e last head jobs =
    let start = backfill_start last in
    send_range e.jobs_capacity (suc e.jobs_capacity) start (backfill_end e.batch_size start head)
      jobs

-- `runBackfill`; an error is an early return
unfoldable pub run_backfill : Engine → Node → Action (Unit {0})
unfolding backfill_start backfill_end send_range
run_backfill e node = do
  head ← lift (answered node.block_number)
  cp ← load_checkpoint
  memory (λ db. (tt, with_jobs (backfill_jobs e cp.last_block_number head) db))
