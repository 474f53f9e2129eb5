-- ===== src/Tx/Reconcile.antt =====
-- internal/tx/reconcile.go: transactions that may not have reached the node are sent again.
use gin_demo.Prelude.{ℕ, Bool, false, ◌||◌, Option, none, some, List, [], ◌∷◌}
use gin_demo.Prelude.Text.{Text, is_empty}
use gin_demo.Sql.{pure, lift, ◌>>=◌, ◌>>◌, ignore, choose}
use gin_demo.Schema.{Action}
use gin_demo.Tx.Types.{Row, Status}
use gin_demo.Tx.Store.{
  is_status, mark_broadcast_pending, mark_broadcast_failed, increment_broadcast_retry,
  list_reconcile_batch,
}
use gin_demo.Tx.Node.{TxNode, send_transaction}

-- `Reconciler`, with the settings that it reads
pub record Reconciler : Type 0 where
  pub grace_sec : ℕ
  pub broadcast_max_retries : ℕ
  pub batch_size : ℕ

abbrev pub record_retry : Row → Option Text → Action (Unit {0})
record_retry row none = mark_broadcast_pending row.tx_hash
record_retry row (some message) = do
  ignore (increment_broadcast_retry row.tx_hash)
  ignore (mark_broadcast_failed row.tx_hash message)

abbrev retry_raw : TxNode → Row → Text → Action (Unit {0})
retry_raw node row raw = choose (is_empty raw) (pure tt) (do
  tx ← lift (node.decode_raw raw)
  refused ← send_transaction node tx
  record_retry row refused)

abbrev retry : TxNode → Row → Option Text → Action (Unit {0})
retry node row none = pure tt
retry node row (some raw) = retry_raw node row raw

-- whether the node's answer settles the row without a send
abbrev is_settled : Row → Option Bool → Bool
is_settled row none = false
is_settled row (some pending) =
    pending || is_status Status.submitting row || is_status Status.broadcast_failed row

-- `reconcileOne`; what fails is an early return
unfoldable pub reconcile_one : TxNode → Row → Action (Unit {0})
reconcile_one node row =
    choose (is_settled row (node.transaction_by_hash row.tx_hash))
      (ignore (mark_broadcast_pending row.tx_hash)) (retry node row row.signed_raw_hex)

unfoldable pub reconcile_all : TxNode → List Row → Action (Unit {0})
unfolding reconcile_one
reconcile_all node [] = pure tt
reconcile_all node (row ∷ batch) = do ignore (reconcile_one node row); reconcile_all node batch

-- `runOnce` of the reconciler
unfoldable pub reconcile_once : Reconciler → TxNode → Action (Unit {0})
unfolding reconcile_all
reconcile_once r node = do
  batch ← list_reconcile_batch r.grace_sec r.broadcast_max_retries r.batch_size
  reconcile_all node batch
