-- ===== src/Indexer/EventLogs.antt =====
-- internal/indexer/engine.go: logs that are decoded become event rows, and transfers to custodial
-- addresses are captured as deposits.
use gin_demo.Prelude.{ℕ, ◌&&◌, Option, none, some, List, [], ◌∷◌, ◌==◌}
use gin_demo.Prelude.Text.{Text, codes, text_eq}
use gin_demo.Sql.{pure, lift, ◌>>=◌, ◌>>◌, now, in_tx, choose}
use gin_demo.Schema.{Db, Action}
use gin_demo.Exchange.Deposit.{DepositProcessor, enabled, is_watch_token, capture_erc20_transfer}
use gin_demo.Indexer.Types.{EventLogRow, Payload}
use gin_demo.Indexer.Events.{
  Log, ParsedEvent, EventRegistry, watch_count, parse_log, value_at, string_of,
  extract_transfer_amount,
}
use gin_demo.Indexer.Node.{Node}
use gin_demo.Indexer.Store.Logs.{upsert_event_log}
use gin_demo.Indexer.Store.Outbox.{insert_outbox}
use gin_demo.Indexer.GapScan.{hash_of}
use gin_demo.Indexer.Engine.{Engine}

abbrev pub event_row : Engine → Log → Text → ParsedEvent → Text → ℕ → EventLogRow
event_row e lg block_hash parsed args at = record {
  tx_hash = lg.tx_hash;
  log_index = lg.index;
  block_number = lg.block_number;
  block_hash = block_hash;
  contract_address = parsed.contract_address;
  event_name = parsed.event_name;
  topic0 = parsed.topic0;
  topics_json = e.topics_json parsed.topics;
  args_json = args;
  synced_at = at;
}

-- the row and its outbox entry
unfoldable pub write_event : Log → EventLogRow → Action (Unit {0})
write_event lg row = do
  upsert_event_log row
  insert_outbox (codes "event_cached") (
      Payload.event_payload row.tx_hash row.block_number row.event_name row.contract_address
        row.args_json)

abbrev pub store_event : Engine → Log → Text → Option ParsedEvent → Action (Unit {0})
store_event e lg block_hash none = pure tt
store_event e lg block_hash (some parsed) = do
  args ← lift (e.args_json parsed.args)
  at ← now
  write_event lg (event_row e lg block_hash parsed args at)

-- `persistParsedLog` inside the transaction of a block
unfoldable pub persist_parsed_log : Engine → Text → Log → Action (Unit {0})
unfolding write_event
persist_parsed_log e block_hash lg =
    choose (watch_count e.events == 0) (pure tt)
      (do parsed ← lift (parse_log e.events lg); store_event e lg block_hash parsed)

unfoldable pub persist_all : Engine → Text → List Log → Action (Unit {0})
unfolding persist_parsed_log
persist_all e block_hash [] = pure tt
persist_all e block_hash (lg ∷ logs) = do
  persist_parsed_log e block_hash lg
  persist_all e block_hash logs

abbrev store_own : Engine → Node → Log → Option ParsedEvent → Action (Unit {0})
store_own e node lg none = pure tt
store_own e node lg (some parsed) = do
  args ← lift (e.args_json parsed.args)
  at ← now
  in_tx (λ base.
      write_event lg
        (event_row e lg (hash_of (node.block_by_number lg.block_number)) parsed args at))

-- `EnqueueTransferLog`: `persistParsedLog` with a transaction of its own and the node's block hash
unfoldable pub enqueue_transfer_log : Engine → Node → Log → Action (Unit {0})
unfolding write_event
enqueue_transfer_log e node lg =
    choose (watch_count e.events == 0) (pure tt)
      (do parsed ← lift (parse_log e.events lg); store_own e node lg parsed)

abbrev pub capture_parsed : DepositProcessor → Db → ℕ → Log → Option ParsedEvent → Action (Unit {0})
capture_parsed p base num lg none = pure tt
capture_parsed p base num lg (some parsed) =
    choose
      (text_eq parsed.event_name (codes "Transfer") && is_watch_token p parsed.contract_address)
      (capture_erc20_transfer p base num lg.tx_hash lg.index parsed.contract_address
        (string_of (value_at (codes "from") parsed.args))
        (string_of (value_at (codes "to") parsed.args))
        (extract_transfer_amount (value_at (codes "value") parsed.args)))
      (pure tt)

-- `captureDepositLog`
unfoldable pub capture_deposit_log :
    EventRegistry → DepositProcessor → Db → ℕ → Log → Action (Unit {0})
unfolding enabled is_watch_token
capture_deposit_log events p base num lg =
    choose (enabled p) (do parsed ← lift (parse_log events lg); capture_parsed p base num lg parsed)
      (pure tt)

unfoldable pub capture_logs :
    EventRegistry → DepositProcessor → Db → ℕ → List Log → Action (Unit {0})
unfolding capture_deposit_log
capture_logs events p base num [] = pure tt
capture_logs events p base num (lg ∷ logs) = do
  capture_deposit_log events p base num lg
  capture_logs events p base num logs
