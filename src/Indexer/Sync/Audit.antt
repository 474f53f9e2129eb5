-- ===== src/Indexer/Sync/Audit.antt =====
-- Syncing a block, with the reorg that it may find, keeps the books of the exchange in order.
use gin_demo.Prelude.{ℕ, ◌-◌, refl, Option, none, some}
use gin_demo.Sql.{World}
use gin_demo.Sql.Rules.{
  From, From-pure, From-choose, From-call, From-total, From-total-then, From-now-then,
}
use gin_demo.Sql.Keeps.{
  Keeps, Keeps-in_tx, Keeps-choose, Keeps-pure, Keeps-bind, Keeps-lift, Keeps-now, Keeps-memory,
  Keeps-deferred, Keeps-query, Keeps-optional, Keeps-ignore, Keeps-update,
}
use gin_demo.Schema.{Db}
use gin_demo.Exchange.Ledger.Audit.{IsAudited}
use gin_demo.Exchange.Deposit.{DepositProcessor, handle_reorg_tx}
use gin_demo.Exchange.Deposit.Audit.{
  AllLeaveExchange, IsCreditedOnce, capture_and_credit-IsAudited, capture_and_credit-IsCreditedOnce,
  handle_reorg_tx-IsAudited, handle_reorg_tx-IsCreditedOnce,
}
use gin_demo.Indexer.Node.{Node, Block}
use gin_demo.Indexer.Types.{BlockRow}
use gin_demo.Indexer.Store.{
  mark_orphaned_from, rollback_checkpoint, enqueue_pending_header, get_block_by_number,
}
use gin_demo.Indexer.Engine.{Engine, send_job}
use gin_demo.Indexer.Reorg.{
  reverse_deposits, roll_back_tx, roll_back, compare_parent, detect_and_handle_reorg,
}
use gin_demo.Indexer.Sync.{sync_locked, sync_block}
use gin_demo.Indexer.Sync.Books.{IsLocal}
use gin_demo.Indexer.Sync.Confirmed.{EngineCapturesKeep, sync_tx-keeps}

-- The reversals of the engine's processor, if it has one, keep `P`.
abbrev pub ReorgsKeep : (Db → Type 0) → Option DepositProcessor → Type 0
ReorgsKeep P none = Unit
ReorgsKeep P (some p) = (from : ℕ) (d : Db) → P d → From d (handle_reorg_tx p from) (λ _ d'. P d')

reverse_deposits-keeps :
    (P : Db → Type 0) (deposit : Option DepositProcessor)
    → ReorgsKeep P deposit
    → (from : ℕ) (d : Db) → P d
    → From d (reverse_deposits deposit from) (λ _ d'. P d')
reverse_deposits-keeps P none reorgs from d h = From-pure tt h
reverse_deposits-keeps P (some p) reorgs from d h =
    From-choose (λ _. reorgs from d h) (λ _. From-pure tt h)

module _ (P : Db → Type 0) (local : IsLocal P) (e : Engine)
    (captures : EngineCapturesKeep P e.deposit) (reorgs : ReorgsKeep P e.deposit) where
  roll_back-Keeps : (blk : Block) → Keeps P (roll_back e blk)
  unfolding roll_back roll_back_tx mark_orphaned_from rollback_checkpoint enqueue_pending_header
      send_job
  roll_back-Keeps blk =
      Keeps-bind
        (Keeps-in_tx _ λ d h. From-total-then _ _ refl (
          From-call {R = λ _ d'. P d'} (From-now-then λ at. From-total _ refl (local d _ refl h))
            λ _ d1 h1. reverse_deposits-keeps P e.deposit reorgs (blk.number - 1) d1 h1))
        λ _. Keeps-bind (Keeps-memory _ λ d h. local d _ refl h) λ _.
          Keeps-bind
            (Keeps-ignore _
              (Keeps-bind Keeps-now λ at. Keeps-update _ (λ d. refl) (λ d h. local d _ refl h)))
            λ _. Keeps-memory _ λ d h. local d _ refl h

  compare_parent-Keeps :
      (blk : Block) (prev : Option BlockRow) → Keeps P (compare_parent e blk prev)
  compare_parent-Keeps blk none = Keeps-pure tt
  compare_parent-Keeps blk (some prev) = Keeps-choose _ _ _ (Keeps-pure tt) (roll_back-Keeps blk)

  sync_locked-Keeps : (node later : Node) (num : ℕ) → Keeps P (sync_locked e node later num)
  unfolding sync_locked detect_and_handle_reorg get_block_by_number
  sync_locked-Keeps node later num = Keeps-bind (Keeps-lift _) λ blk.
      Keeps-bind
        (Keeps-choose _ _ _ (Keeps-pure tt)
          (Keeps-bind (Keeps-optional _ (Keeps-query _)) (compare_parent-Keeps blk)))
        λ _. Keeps-in_tx _ λ d h. sync_tx-keeps P local e captures node later num blk d d h

  pub sync_block-Keeps : (node later : Node) (num : ℕ) → Keeps P (sync_block e node later num)
  unfolding sync_block
  sync_block-Keeps node later num = Keeps-bind Keeps-now λ at.
      Keeps-bind (Keeps-memory _ λ d h. local d _ refl h) λ free.
        Keeps-choose _ _ _
          (Keeps-deferred _ _ (λ d h. local d _ refl h) (sync_locked-Keeps node later num))
          (Keeps-pure tt)

-- What the notifier of the engine's processor, if it has one, must leave alone.
abbrev pub NotifierLeavesExchange : Option DepositProcessor → Type 0
NotifierLeavesExchange none = Unit
NotifierLeavesExchange (some p) = AllLeaveExchange p.webhook

captures-IsAudited :
    (deposit : Option DepositProcessor)
    → NotifierLeavesExchange deposit
    → EngineCapturesKeep IsAudited deposit
captures-IsAudited none leaves = tt
captures-IsAudited (some p) leaves =
    λ base params d h. capture_and_credit-IsAudited p.webhook base params d leaves h

reorgs-IsAudited : (deposit : Option DepositProcessor) → ReorgsKeep IsAudited deposit
reorgs-IsAudited none = tt
reorgs-IsAudited (some p) = handle_reorg_tx-IsAudited p

captures-IsCreditedOnce :
    (deposit : Option DepositProcessor)
    → NotifierLeavesExchange deposit
    → EngineCapturesKeep IsCreditedOnce deposit
captures-IsCreditedOnce none leaves = tt
captures-IsCreditedOnce (some p) leaves =
    λ base params d h. capture_and_credit-IsCreditedOnce p.webhook base params d leaves h

reorgs-IsCreditedOnce : (deposit : Option DepositProcessor) → ReorgsKeep IsCreditedOnce deposit
reorgs-IsCreditedOnce none = tt
reorgs-IsCreditedOnce (some p) = handle_reorg_tx-IsCreditedOnce p

-- However the syncing of a block ends, with a reorg before it or without, on whatever the node
-- answers: every balance equals the sum of its journal entries and no deposit has been credited
-- twice, if both were so before and the notifier leaves the exchange's tables alone.
pub sync_block-IsAudited :
    (e : Engine) (node later : Node) (num : ℕ) (w : World Db)
    → NotifierLeavesExchange e.deposit
    → IsAudited w.db
    → IsCreditedOnce w.db
    → IsAudited (sync_block e node later num w).1.db
      × IsCreditedOnce (sync_block e node later num w).1.db
sync_block-IsAudited e node later num w leaves audited once = (
  (sync_block-Keeps IsAudited (λ d d' same h. rw same h) e (captures-IsAudited e.deposit leaves)
        (reorgs-IsAudited e.deposit) node later num).at
      w audited,
  (sync_block-Keeps IsCreditedOnce (λ d d' same h. rw same h) e
        (captures-IsCreditedOnce e.deposit leaves) (reorgs-IsCreditedOnce e.deposit) node later
        num).at
      w once,
)
