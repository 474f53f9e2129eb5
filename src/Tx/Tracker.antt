-- ===== src/Tx/Tracker.antt =====
-- internal/tx/tracker.go: the receipts of the tracked transactions decide about their status, and the
-- withdrawal service is told. The balance refreshes that run aside are left out.
pub mod Handlers
pub mod Confirmed
use gin_demo.Prelude.{
  ℕ, suc, ◌+◌, ◌-◌, ◌*◌, ◌%◌, ◌^◌, Bool, true, false, not, ◌&&◌, ◌||◌, Option, none, some, List, [],
  ◌∷◌, leb, ltb, if◌then◌else◌,
}
use gin_demo.Prelude.Text.{Text, codes, text_eq, is_empty}
use gin_demo.Sql.{Result, ok, err, pure, lift, ◌>>=◌, ◌>>◌, now, ignore, attempt, choose}
use gin_demo.Schema.{Db, Action}
use gin_demo.Tx.Types.{Row, Status, OutboxItem}
use gin_demo.Tx.Store.{is_status, mark_broadcast_pending, get_by_hash, list_trackable, is_trackable}
use gin_demo.Tx.Outbox.{
  Sighting, transition_status, mark_replaced_siblings, claim_outbox_batch, mark_outbox_done,
}
use gin_demo.Tx.Node.{TxNode, Receipt}

-- `WithdrawHandler`, internal/tx/withdraw_hook.go
pub record WithdrawHandler : Type 0 where
  pub on_withdraw_tx_confirmed : Text → Action (Unit {0})
  pub on_withdraw_tx_failed : Text → Action (Unit {0})

-- `Tracker`, with the settings that it reads
pub record Tracker : Type 0 where
  pub confirm_depth : ℕ
  pub max_pending_hours : ℕ
  pub batch_size : ℕ
  pub withdraw : Option WithdrawHandler

abbrev is_withdraw : Option Text → Bool
is_withdraw none = false
is_withdraw (some t) = text_eq t (codes "withdraw")

-- `if t.withdraw != nil && row.BizType == BizTypeWithdraw`
abbrev pub tell :
    Option WithdrawHandler → Row → (WithdrawHandler → Action (Unit {0})) → Action (Unit {0})
tell none row call = pure tt
tell (some h) row call = choose (is_withdraw row.biz_type) (ignore (call h)) (pure tt)

-- `shouldDrop`, at a given time
unfoldable pub should_drop : Tracker → Row → ℕ → Bool
should_drop t row at = ltb (t.max_pending_hours * 3600000) (at - row.created_at)

abbrev timeout_message : Text
timeout_message = codes "not found in mempool or chain before timeout"

abbrev pub without_receipt : Tracker → Row → Action (Unit {0})
without_receipt t row = do
  at ← now
  choose (should_drop t row at)
      (do
        ignore (
            transition_status row.tx_hash Status.dropped (record {
              block_number = 0;
              confirmations = 0;
              gas_used = 0;
              message = timeout_message;
            }))
        tell t.withdraw row (λ h. h.on_withdraw_tx_failed row.tx_hash))
      (pure tt)

-- `conf`
abbrev pub confirmations_at : ℕ → ℕ → ℕ
confirmations_at head block = if leb block head then (head - block + 1) % 2 ^ 64 else 0

abbrev sighting : Receipt → ℕ → Text → Sighting
sighting rc conf message = record {
  block_number = rc.block_number;
  confirmations = conf;
  gas_used = rc.gas_used;
  message = message;
}

abbrev pub reverted : Tracker → Row → Receipt → ℕ → Action (Unit {0})
reverted t row rc conf = do
  ignore
      (transition_status row.tx_hash Status.failed (sighting rc conf (codes "execution reverted")))
  tell t.withdraw row (λ h. h.on_withdraw_tx_failed row.tx_hash)

-- enough confirmations
abbrev pub confirmed : Tracker → Row → Receipt → ℕ → Action (Unit {0})
confirmed t row rc conf = do
  ignore (mark_replaced_siblings row.from_addr row.nonce row.tx_hash)
  transition_status row.tx_hash Status.confirmed (sighting rc conf [])
  tell t.withdraw row (λ h. h.on_withdraw_tx_confirmed row.tx_hash)

abbrev pub with_receipt : Tracker → Row → ℕ → Option Receipt → Action (Unit {0})
with_receipt t row head none = without_receipt t row
with_receipt t row head (some rc) =
    let conf = confirmations_at head rc.block_number in
    choose rc.failed (reverted t row rc conf) (
      choose (leb t.confirm_depth conf) (confirmed t row rc conf)
        (transition_status row.tx_hash Status.pending (sighting rc conf [])))

abbrev has_raw : Option Text → Bool
has_raw none = false
has_raw (some raw) = not (is_empty raw)

-- the probe for a row that is not known to be sent: the row to go on with, if any
abbrev pub probe : TxNode → Row → Option Bool → Action (Option Row)
probe node row (some pending) = do
  ignore (mark_broadcast_pending row.tx_hash)
  pure (some (record row { status = Status.pending }))
probe node row none = pure (if has_raw row.signed_raw_hex then none else some row)

abbrev pub track_on : Tracker → TxNode → ℕ → Option Row → Action (Unit {0})
track_on t node head none = pure tt
track_on t node head (some row) = with_receipt t row head (node.transaction_receipt row.tx_hash)

-- `trackOne`; what fails is an early return
unfoldable pub track_one : Tracker → TxNode → Row → ℕ → Action (Unit {0})
unfolding should_drop
track_one t node row head = do
  going ←
      choose (is_status Status.submitting row || is_status Status.broadcast_failed row)
        (probe node row (node.transaction_by_hash row.tx_hash)) (pure (some row))
  track_on t node head going

unfoldable pub track_all : Tracker → TxNode → ℕ → List Row → Action (Unit {0})
unfolding track_one
track_all t node head [] = pure tt
track_all t node head (row ∷ batch) = do
  ignore (track_one t node row head)
  track_all t node head batch

abbrev pub track_batch : Tracker → TxNode → List Row → Action (Unit {0})
track_batch t node [] = pure tt
track_batch t node (row ∷ batch) = do
  head ← lift node.block_number
  track_all t node head (row ∷ batch)

-- `runOnce` of the tracker
unfoldable pub run_once : Tracker → TxNode → Action (Unit {0})
unfolding track_all
run_once t node = do batch ← list_trackable t.batch_size; track_batch t node batch

-- `RefreshOne`
unfoldable pub refresh_one : Tracker → TxNode → Text → Action Row
unfolding track_one
refresh_one t node hash = do
  row ← get_by_hash hash
  choose (is_trackable row)
      (do head ← lift node.block_number; ignore (track_one t node row head); get_by_hash hash)
      (pure row)

unfoldable pub publish_all : List OutboxItem → Action (Unit {0})
publish_all [] = pure tt
publish_all (it ∷ items) = do ignore (mark_outbox_done it.id); publish_all items

-- a round of `outboxWorker`
unfoldable pub outbox_round : Action (Unit {0})
unfolding publish_all
outbox_round = do items ← claim_outbox_batch 20; publish_all items
