-- ===== src/Indexer/Sync/Books.antt =====
-- What depends on the exchange's tables alone and is kept by captures and reversals, is kept by the
-- syncing of a block.
use gin_demo.Prelude.{
  ℕ, suc, update_where, ◌≡◌, refl, sym, not, ◌&&◌, Option, none, some, List, [], ◌∷◌, any,
  Bool-cases, inl, inr,
}
use gin_demo.Prelude.Text.{Text}
use gin_demo.Sql.{ok}
use gin_demo.Sql.Rules.{
  From, From-pure, From-choose, From-call, From-exec, From-total, From-total-then, From-now-then,
  From-weaken, From-lift-then,
}
use gin_demo.Sql.Keeps.{From-attempt, Keeps-query}
use gin_demo.Schema.{Db}
use gin_demo.Indexer.Types.{BlockRow, EventLogRow}
use gin_demo.Indexer.Node.{Node, Block, ChainTx, Receipt}
use gin_demo.Indexer.Events.{Log, ParsedEvent}
use gin_demo.Indexer.Store.{
  refreshed, with_blocks, put_block, upsert_block, has_number, has_hash, confirm_blocks_up_to,
  load_checkpoint_from, upsert_checkpoint, delete_pending_header,
}
use gin_demo.Indexer.Store.Logs.{upsert_transaction, upsert_event_log}
use gin_demo.Indexer.Store.Outbox.{insert_outbox}
use gin_demo.Indexer.Engine.{Engine}
use gin_demo.Indexer.EventLogs.{write_event, store_event, persist_parsed_log, persist_all}
use gin_demo.Indexer.Sync.{store_from, logs_json, store_txs, finish_block}

-- `P` depends on the exchange's tables alone.
abbrev pub IsLocal : (Db → Type 0) → Type 0
IsLocal P = (d d' : Db) → d'.exchange ≡ d.exchange → P d → P d'

with_blocks-exchange :
    (rows : List BlockRow) (d : Db) {x : Unit {0}} {d' : Db}
    → with_blocks rows d ≡ ok (x, d')
    → d'.exchange ≡ d.exchange
with_blocks-exchange rows d {x} {d'} h =
    let same : record d { indexer = record (d.indexer) { blocks = rows } } ≡ d' = cc in
    rw (sym same) refl

put_block-exchange :
    (b : BlockRow) (d : Db) (x : Unit {0}) (d' : Db)
    → put_block b d ≡ ok (x, d')
    → d'.exchange ≡ d.exchange
unfolding put_block
put_block-exchange b d x d' h =
    let rows = d.indexer.blocks in
    elim (Bool-cases (any (has_number b.block_number) rows)) [
      | inl numbered ↦
          elim (Bool-cases
            (any (λ y. has_hash b.block_hash y && not (has_number b.block_number y)) rows)) [
              | inl taken ↦ cc (rw (numbered, taken) at h)
              | inr own ↦
                  with_blocks-exchange (update_where (has_number b.block_number) (refreshed b) rows)
                    d (rw (numbered, own) at h)
            ]
      | inr fresh ↦ elim (Bool-cases (any (has_hash b.block_hash) rows)) [
        | inl hashed ↦
            with_blocks-exchange (update_where (has_hash b.block_hash) (refreshed b) rows) d
              (rw (fresh, hashed) at h)
        | inr unknown ↦ with_blocks-exchange (b ∷ rows) d (rw (fresh, unknown) at h)
      ]
    ]

module _ (P : Db → Type 0) (local : IsLocal P) where
  pub upsert_block-keeps : (b : BlockRow) (d : Db) → P d → From d (upsert_block b) (λ _ d'. P d')
  unfolding upsert_block
  upsert_block-keeps b d h = From-exec _ λ x d' e. local d d' (put_block-exchange b d x d' e) h

  write_event-keeps :
      (lg : Log) (row : EventLogRow) (d : Db) → P d → From d (write_event lg row) (λ _ d'. P d')
  unfolding write_event upsert_event_log insert_outbox
  write_event-keeps lg row d h =
      From-total-then _ _ refl (From-now-then λ at. From-total _ refl (local d _ refl h))

  store_event-keeps :
      (e : Engine) (lg : Log) (hash : Text) (parsed : Option ParsedEvent) (d : Db)
      → P d
      → From d (store_event e lg hash parsed) (λ _ d'. P d')
  store_event-keeps e lg hash none d h = From-pure tt h
  store_event-keeps e lg hash (some parsed) d h =
      From-lift-then _ λ args _. From-now-then λ at. write_event-keeps lg _ d h

  persist_all-keeps :
      (e : Engine) (hash : Text) (logs : List Log) (d : Db)
      → P d
      → From d (persist_all e hash logs) (λ _ d'. P d')
  unfolding persist_all persist_parsed_log
  persist_all-keeps e hash [] d h = From-pure tt h
  persist_all-keeps e hash (lg ∷ logs) d h =
      From-call {R = λ _ d'. P d'}
        (From-choose (λ _. From-pure tt h)
          (λ _. From-lift-then _ λ parsed _. store_event-keeps e lg hash parsed d h))
        λ _ d1 h1. persist_all-keeps e hash logs d1 h1

  logs_json-keeps :
      (e : Engine) (hash : Text) (rc : Option Receipt) (d : Db)
      → P d
      → From d (logs_json e hash rc) (λ _ d'. P d')
  logs_json-keeps e hash none d h = From-pure tt h
  logs_json-keeps e hash (some rc) d h = persist_all-keeps e hash rc.logs d h

  store_from-keeps :
      (e : Engine) (num : ℕ) (hash : Text) (at i : ℕ) (tx : ChainTx) (rc : Option Receipt)
      (sender : Option Text) (d : Db)
      → P d
      → From d (store_from e num hash at i tx rc sender) (λ _ d'. P d')
  unfolding upsert_transaction
  store_from-keeps e num hash at i tx rc none d h = From-pure tt h
  store_from-keeps e num hash at i tx rc (some from) d h =
      From-call {R = λ _ d'. P d'} (logs_json-keeps e hash rc d h)
        λ _ d1 h1. From-total _ refl (local d1 _ refl h1)

  pub store_txs-keeps :
      (e : Engine) (node : Node) (num : ℕ) (hash : Text) (at i : ℕ) (txs : List ChainTx) (d : Db)
      → P d
      → From d (store_txs e node num hash at i txs) (λ _ d'. P d')
  unfolding store_txs
  store_txs-keeps e node num hash at i [] d h = From-pure tt h
  store_txs-keeps e node num hash at i (tx ∷ txs) d h =
      From-call {R = λ _ d'. P d'} (store_from-keeps e num hash at i tx _ tx.sender d h)
        λ _ d1 h1. store_txs-keeps e node num hash at (suc i) txs d1 h1

  pub finish_block-keeps :
      (base : Db) (num confirmed : ℕ) (blk : Block) (d : Db)
      → P d
      → From d (finish_block base num confirmed blk) (λ _ d'. P d')
  unfolding finish_block confirm_blocks_up_to upsert_checkpoint delete_pending_header insert_outbox
      load_checkpoint_from
  finish_block-keeps base num confirmed blk d h =
      From-call {R = λ _ d'. P d'}
        (From-choose (λ _. From-total _ refl (local d _ refl h)) (λ _. From-pure tt h))
        λ _ d1 h1.
          From-call {R = λ _ d'. P d'}
            (From-weaken (From-attempt _ (Keeps-query _)) λ _ d' same. rw same h1)
            λ cp d2 h2.
              From-call {R = λ _ d'. P d'}
                (From-choose (λ _. From-now-then λ at. From-total _ refl (local d2 _ refl h2))
                  (λ _. From-pure tt h2))
                λ _ d3 h3.
                  From-call {R = λ _ d'. P d'}
                    (From-now-then λ at. From-total _ refl (local d3 _ refl h3))
                    λ _ d4 h4. From-total _ refl (local d4 _ refl h4)
