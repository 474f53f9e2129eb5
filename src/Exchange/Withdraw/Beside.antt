-- ===== src/Exchange/Withdraw/Beside.antt =====
-- The withdrawal handlers and what lies beside the exchange's tables.
use gin_demo.Prelude.Int.{ℤ}
use gin_demo.Prelude.Text.{Text}
use gin_demo.Sql.Rules.{From, From-weaken, From-lift-then}
use gin_demo.Sql.Keeps.{Keeps}
use gin_demo.Schema.{Db}
use gin_demo.Exchange.Ledger.{LedgerOp, post_amount, unfreeze_withdraw, debit_withdraw}
use gin_demo.Exchange.Ledger.Posting.{apply_ledger-Posted}
use gin_demo.Exchange.Deposit.Beside.{IgnoresExchange}
use gin_demo.Exchange.Withdraw.{on_withdraw_tx_confirmed, on_withdraw_tx_failed}
use gin_demo.Exchange.Withdraw.Audit.{MoveKeeps, handlers-keep}

module _ (P : Db → Type 0) (ignores : IgnoresExchange P) where
  post-beside :
      (user token amount : Text) (op : ℤ → LedgerOp) (d : Db)
      → P d
      → From d (post_amount user token amount op) (λ _ d'. P d')
  post-beside user token amount op d h = From-lift-then _ λ v read.
      From-weaken (apply_ledger-Posted user token (op v) d) λ _ d' p. rw (p.written) (ignores d _ h)

  moves-beside : MoveKeeps P unfreeze_withdraw × MoveKeeps P debit_withdraw
  unfolding unfreeze_withdraw debit_withdraw
  moves-beside = (
    λ user token amount id d h. post-beside user token amount _ d h,
    λ user token amount id d h. post-beside user token amount _ d h,
  )

  pub handlers-beside :
      (hash : Text) → Keeps P (on_withdraw_tx_confirmed hash) × Keeps P (on_withdraw_tx_failed hash)
  handlers-beside hash =
      handlers-keep P moves-beside.0 moves-beside.1 (λ d rows h. ignores d _ h) hash
