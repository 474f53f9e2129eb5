-- ===== src/Indexer/Sync/Confirmed.antt =====
-- When the syncing of a block captures deposits, and that the books stay in order.
use gin_demo.Prelude.{
  ℕ, ◌-◌, ◌≤◌, ◌<◌, ◌≡◌, refl, false, ◌==◌, Option, none, some, List, [], ◌∷◌, arith, ◌∙◌, ◌↔◌, ◌⊎◌,
}
use gin_demo.Prelude.Text.{Text}
use gin_demo.Sql.Rules.{From, From-pure, From-choose, From-call, From-now-then, From-lift-then}
use gin_demo.Schema.{Db}
use gin_demo.Exchange.Deposit.{DepositProcessor}
use gin_demo.Exchange.Deposit.Captures.{
  CapturesKeep, capture_native_tx-keeps, capture_erc20_transfer-keeps,
}
use gin_demo.Indexer.Node.{Node, Block, ChainTx, Receipt}
use gin_demo.Indexer.Events.{Log, ParsedEvent, EventRegistry}
use gin_demo.Indexer.Engine.{Engine}
use gin_demo.Indexer.EventLogs.{capture_parsed, capture_deposit_log, capture_logs}
use gin_demo.Indexer.Sync.{
  capture_receipt_logs, capture_from, capture_txs, capture_if, confirmed_up_to, head_of, depth_of,
  sync_tx,
}
use gin_demo.Indexer.Sync.Books.{IsLocal, upsert_block-keeps, store_txs-keeps, finish_block-keeps}

-- A block counts as confirmed when the head is not past it, or when the head is as far past it as
-- the depth says.
pub confirmed_up_to-confirmed :
    (head depth num : ℕ)
    → 0 < num
    → (confirmed_up_to head depth num ≡ num) ↔ ((head ≤ num) ⊎ (depth ≤ head - num))
unfolding confirmed_up_to
confirmed_up_to-confirmed head depth num positive = (λ h. ground arith, λ h. ground arith)

module _ (P : Db → Type 0) (p : DepositProcessor) (captures : CapturesKeep P p) where
  capture_parsed-keeps :
      (base : Db) (num : ℕ) (lg : Log) (parsed : Option ParsedEvent) (d : Db)
      → P d
      → From d (capture_parsed p base num lg parsed) (λ _ d'. P d')
  capture_parsed-keeps base num lg none d h = From-pure tt h
  capture_parsed-keeps base num lg (some parsed) d h =
      From-choose
        (λ _. capture_erc20_transfer-keeps P p captures base num lg.tx_hash lg.index _ _ _ _ d h)
        (λ _. From-pure tt h)

  capture_logs-keeps :
      (events : EventRegistry) (base : Db) (num : ℕ) (logs : List Log) (d : Db)
      → P d
      → From d (capture_logs events p base num logs) (λ _ d'. P d')
  unfolding capture_logs capture_deposit_log
  capture_logs-keeps events base num [] d h = From-pure tt h
  capture_logs-keeps events base num (lg ∷ logs) d h =
      From-call {R = λ _ d'. P d'}
        (From-choose (λ _. From-lift-then _ λ parsed _. capture_parsed-keeps base num lg parsed d h)
          (λ _. From-pure tt h))
        λ _ d1 h1. capture_logs-keeps events base num logs d1 h1

  capture_receipt_logs-keeps :
      (e : Engine) (base : Db) (num : ℕ) (rc : Option Receipt) (d : Db)
      → P d
      → From d (capture_receipt_logs e p base num rc) (λ _ d'. P d')
  capture_receipt_logs-keeps e base num none d h = From-pure tt h
  capture_receipt_logs-keeps e base num (some rc) d h =
      From-choose (λ _. capture_logs-keeps e.events base num rc.logs d h) (λ _. From-pure tt h)

  capture_from-keeps :
      (e : Engine) (base : Db) (num : ℕ) (tx : ChainTx) (rc : Option Receipt) (sender : Option Text)
      (d : Db)
      → P d
      → From d (capture_from e p base num tx rc sender) (λ _ d'. P d')
  capture_from-keeps e base num tx rc none d h = From-pure tt h
  capture_from-keeps e base num tx rc (some from) d h =
      From-call {R = λ _ d'. P d'}
        (capture_native_tx-keeps P p captures base num tx.hash _ _ _ _ d h)
        λ _ d1 h1. capture_receipt_logs-keeps e base num rc d1 h1

  pub capture_txs-keeps :
      (e : Engine) (later : Node) (base : Db) (num : ℕ) (txs : List ChainTx) (d : Db)
      → P d
      → From d (capture_txs e later p base num txs) (λ _ d'. P d')
  unfolding capture_txs
  capture_txs-keeps e later base num [] d h = From-pure tt h
  capture_txs-keeps e later base num (tx ∷ txs) d h =
      From-call {R = λ _ d'. P d'}
        (capture_from-keeps e base num tx (later.transaction_receipt tx.hash) tx.sender d h)
        λ _ d1 h1. capture_txs-keeps e later base num txs d1 h1

-- The captures of the engine's processor, if it has one, keep `P`.
abbrev pub EngineCapturesKeep : (Db → Type 0) → Option DepositProcessor → Type 0
EngineCapturesKeep P none = Unit
EngineCapturesKeep P (some p) = CapturesKeep P p

capture_if-keeps :
    (P : Db → Type 0) (deposit : Option DepositProcessor)
    → EngineCapturesKeep P deposit
    → (e : Engine) (later : Node) (base : Db) (num confirmed : ℕ) (blk : Block) (d : Db) → P d
    → From d (capture_if e later deposit base num confirmed blk) (λ _ d'. P d')
capture_if-keeps P none captures e later base num confirmed blk d h = From-pure tt h
capture_if-keeps P (some p) captures e later base num confirmed blk d h =
    From-choose (λ _. capture_txs-keeps P p captures e later base num blk.transactions d h)
      (λ _. From-pure tt h)

-- what the transaction keeps, if its captures keep it
sync_tx-around :
    (P : Db → Type 0)
    → IsLocal P
    → (e : Engine) (node later : Node) (num : ℕ) (blk : Block) (base d : Db)
    → ((at : Db)
        → P at
        → From at
            (capture_if e later e.deposit base num
              (confirmed_up_to (head_of later.block_number) (depth_of e) num)
              blk)
            (λ _ d'. P d'))
    → P d
    → From d (sync_tx e node later num blk base) (λ _ d'. P d')
unfolding sync_tx
sync_tx-around P local e node later num blk base d capturing h = From-now-then λ at.
    From-call {R = λ _ d'. P d'} (upsert_block-keeps P local _ d h) λ _ d1 h1.
      From-call {R = λ _ d'. P d'}
        (store_txs-keeps P local e node num blk.hash at 0 blk.transactions d1 h1)
        λ _ d2 h2.
          From-call {R = λ _ d'. P d'} (capturing d2 h2)
            λ _ d3 h3. finish_block-keeps P local base num _ blk d3 h3

pub sync_tx-keeps :
    (P : Db → Type 0)
    → IsLocal P
    → (e : Engine) → EngineCapturesKeep P e.deposit
    → (node later : Node) (num : ℕ) (blk : Block) (base d : Db) → P d
    → From d (sync_tx e node later num blk base) (λ _ d'. P d')
sync_tx-keeps P local e captures node later num blk base d h =
    sync_tx-around P local e node later num blk base d
      (λ at k. capture_if-keeps P e.deposit captures e later base num _ blk at k) h

capture_if-nothing :
    (P : Db → Type 0) (deposit : Option DepositProcessor) (e : Engine) (later : Node) (base : Db)
    (num confirmed : ℕ) (blk : Block) (d : Db)
    → (confirmed == num) ≡ false
    → P d
    → From d (capture_if e later deposit base num confirmed blk) (λ _ d'. P d')
capture_if-nothing P none e later base num confirmed blk d open_yet h = From-pure tt h
capture_if-nothing P (some p) e later base num confirmed blk d open_yet h =
    From-choose (λ k. cc (rw open_yet at k)) (λ _. From-pure tt h)

shallow-open :
    (head depth num : ℕ)
    → 0 < num
    → num < head
    → head - num < depth
    → (confirmed_up_to head depth num == num) ≡ false
unfolding confirmed_up_to
shallow-open head depth num positive past shallow = ground arith

-- While the head is past a block by less than the depth, the transaction that syncs the block leaves
-- the exchange's tables as they are: no deposit of the block is captured.
pub sync_tx-unconfirmed :
    (e : Engine) (node later : Node) (num head : ℕ) (blk : Block) (base d : Db)
    → later.block_number ≡ some head
    → 0 < num
    → num < head
    → head - num < depth_of e
    → From d (sync_tx e node later num blk base) (λ _ d'. d'.exchange ≡ d.exchange)
sync_tx-unconfirmed e node later num head blk base d at_head positive past shallow =
    sync_tx-around (λ d'. d'.exchange ≡ d.exchange) (λ x y same h. same ∙ h) e node later num blk
      base d
      (λ at k.
        capture_if-nothing (λ d'. d'.exchange ≡ d.exchange) e.deposit e later base num _ blk at
          (rw at_head (shallow-open head (depth_of e) num positive past shallow)) k)
      refl
