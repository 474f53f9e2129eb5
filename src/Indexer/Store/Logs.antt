-- ===== src/Indexer/Store/Logs.antt =====
-- internal/indexer/store.go: transactions, transfer logs and event logs, each upserted under its
-- primary key, and the records of the gap scans.
use gin_demo.Prelude.{Bool, ◌&&◌, List, ◌∷◌, ◌==◌, if◌then◌else◌, any, update_where}
use gin_demo.Prelude.Text.{text_eq}
use gin_demo.Sql.{◌>>=◌, now, exec}
use gin_demo.Schema.{Action}
use gin_demo.Indexer.Types.{TxRow, TransferLogRow, EventLogRow, GapScanAudit}
use gin_demo.Indexer.Store.{change}

-- `INSERT … ON DUPLICATE KEY UPDATE` on a table with one unique key
abbrev pub upserted : {R : Type 0} → (R → Bool) → R → (R → R) → List R → List R
upserted same row refresh rows =
    if any same rows then update_where same refresh rows else row ∷ rows

abbrev same_tx : TxRow → TxRow → Bool
same_tx row old = text_eq old.tx_hash row.tx_hash

abbrev refreshed_tx : TxRow → TxRow → TxRow
refreshed_tx row old = record old {
  block_number = row.block_number;
  block_hash = row.block_hash;
  tx_index = row.tx_index;
  gas_used = row.gas_used;
  tx_status = row.tx_status;
  synced_at = row.synced_at;
}

-- `UpsertTransactionTx`
unfoldable pub upsert_transaction : TxRow → Action (Unit {0})
upsert_transaction row = exec (
    change (λ t. record t {
      transactions = upserted (same_tx row) row (refreshed_tx row) t.transactions;
    }))

abbrev same_transfer : TransferLogRow → TransferLogRow → Bool
same_transfer row old = text_eq old.tx_hash row.tx_hash && old.log_index == row.log_index

-- `UpsertTransferLogTx`
unfoldable pub upsert_transfer_log : TransferLogRow → Action (Unit {0})
upsert_transfer_log row = do
  at ← now
  exec (
      change (λ t. record t {
        transfer_logs =
            upserted (same_transfer row) (record row { synced_at = at })
              (λ old. record old { synced_at = at }) t.transfer_logs;
      }))

abbrev same_event : EventLogRow → EventLogRow → Bool
same_event row old = text_eq old.tx_hash row.tx_hash && old.log_index == row.log_index

abbrev refreshed_event : EventLogRow → EventLogRow → EventLogRow
refreshed_event row old = record old {
  block_number = row.block_number;
  block_hash = row.block_hash;
  event_name = row.event_name;
  args_json = row.args_json;
  synced_at = row.synced_at;
}

-- `UpsertEventLogTx`
unfoldable pub upsert_event_log : EventLogRow → Action (Unit {0})
upsert_event_log row = exec (
    change (λ t. record t {
      event_logs = upserted (same_event row) row (refreshed_event row) t.event_logs;
    }))

-- `InsertGapScanAudit`
unfoldable pub insert_gap_scan_audit : GapScanAudit → Action (Unit {0})
insert_gap_scan_audit a = do
  at ← now
  exec (change (λ t. record t { gap_scans = record a { scanned_at = at } ∷ t.gap_scans }))
