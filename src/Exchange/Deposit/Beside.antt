-- ===== src/Exchange/Deposit/Beside.antt =====
-- Capturing deposits and handling a reorg change nothing beside the exchange's tables, except for
-- what the notifier does.
use gin_demo.Prelude.{ℕ}
use gin_demo.Prelude.Text.{Text}
use gin_demo.Sql.Rules.{From, From-weaken, From-lift-then}
use gin_demo.Schema.{Db}
use gin_demo.Exchange.Types.{Tables}
use gin_demo.Exchange.Ledger.{reverse_deposit, reverse_op}
use gin_demo.Exchange.Ledger.Posting.{apply_ledger-Posted}
use gin_demo.Exchange.Deposit.{DepositProcessor, handle_reorg_tx}
use gin_demo.Exchange.Deposit.Books.{handle_reorg_tx-keeps}

-- `P` says nothing of the exchange's tables.
abbrev pub IgnoresExchange : (Db → Type 0) → Type 0
IgnoresExchange P = (d : Db) (t : Tables) → P d → P (record d { exchange = t })

module _ (P : Db → Type 0) (ignores : IgnoresExchange P) where
  reverse-beside :
      (user token amount : Text) (id : ℕ) (d : Db)
      → P d
      → From d (reverse_deposit user token amount id) (λ _ d'. P d')
  unfolding reverse_deposit
  reverse-beside user token amount id d h = From-lift-then _ λ v read.
      From-weaken (apply_ledger-Posted user token (reverse_op id v) d)
        λ _ d' p. rw (p.written) (ignores d _ h)

  pub handle_reorg_tx-beside :
      (p : DepositProcessor) (from : ℕ) (d : Db)
      → P d
      → From d (handle_reorg_tx p from) (λ _ d'. P d')
  handle_reorg_tx-beside p from d h =
      handle_reorg_tx-keeps P (λ d rows next h. ignores d _ h) reverse-beside p from d h
