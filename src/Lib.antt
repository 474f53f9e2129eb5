-- ===== src/Lib.antt =====
-- A custodial exchange backend: a ledger of user balances in MySQL, deposits seen on an Ethereum chain,
-- withdrawals sent to it, a tracker of sent transactions, and callbacks to merchants. This library
-- models the parts that decide about money and about the order of events, and proves what they keep.
--
-- Parts and files:
-- * Sql is `database/sql` as the program uses it: a session is a function on a world (the tables, the
--   outcomes of the statements to come, the clock). Any statement, `BEGIN` and `COMMIT` included, may
--   fail. A transaction works on a copy of the tables, which its commit publishes. Sql.Rules is what a
--   successful action establishes, Sql.Keeps what an action keeps however it ends, Sql.Stops which
--   actions fail and change nothing, Sql.Runs which actions return a result when no statement fails.
-- * Schema gathers the tables of the packages, internal/*/schema.go and internal/indexer/mysql.go, into
--   one database, with the cache and the indexer's channel of jobs beside them.
-- * Cache is internal/cache/memory.go.
-- * Pipeline is internal/pipeline/bus.go, the channels between the chain's listeners and the workers that
--   count; what it gives to the indexer is a parameter.
-- * Balance.Registry is internal/balance/registry.go, the cache of custodial wallets; Balance.Store is
--   store.go, their table and the balances that the node has reported, and Balance.Syncer syncer.go,
--   which asks the node for them.
-- * Exchange.Reconcile is internal/exchange/reconcile.go: it reads the wallets and balances of
--   Balance.Store and the accounts of the ledger.
-- * Exchange.Types, Exchange.Wei and Exchange.Ledger are internal/exchange/types.go, wei.go and
--   ledger.go; Exchange.Store is store.go. Exchange.Ledger.apply_ledger is applyLedgerTx, through which
--   every change of a balance goes.
-- * Exchange.Deposit is internal/exchange/deposit.go: captureAndCredit, HandleReorgTx and what calls
--   them. The indexer calls it for each block, inside its own transaction.
-- * Exchange.Withdraw is internal/exchange/service.go: CreateWithdraw, ApproveWithdraw, RejectWithdraw
--   and the two handlers that the transaction tracker calls back.
--   Exchange.Withdraw.Broadcast is its ProcessApprovedWithdraw, failBroadcast and selectFromWallet.
-- * Tx.Nonce is internal/tx/nonce.go, Tx.Store and Tx.Outbox are internal/tx/store.go, Tx.Service is
--   service.go, Tx.Tracker tracker.go and Tx.Reconcile reconcile.go. The tracker calls the exchange's
--   two withdrawal handlers.
-- * Webhook.Merchants, Webhook.Outbox, Webhook.Payment and Webhook.Engine are internal/webhook/store.go,
--   service.go and worker.go. Webhook.Outbox.enqueue_deposit is the notifier that the deposit processor
--   is given, and Webhook.Payment calls the exchange's ledger.
--
-- * Indexer.Store and its children are internal/indexer/store.go, Indexer.Events is events.go,
--   Indexer.GapScan is gapscan.go. The rest of Indexer is engine.go: Indexer.Engine the channel of jobs
--   and the backfill, Indexer.Reorg detectAndHandleReorg, Indexer.EventLogs persistParsedLog and
--   captureDepositLog, Indexer.Sync syncBlock, Indexer.OutboxWorker processOutbox. syncBlock calls the
--   deposit processor inside its transaction.
--
-- How the code is read:
-- * An SQL statement is a function on the tables, with the unique keys and the `WHERE` of its text. A
--   table is a list, newest row first. A store serves one chain, so the tables hold that chain's rows.
--   Column widths, collations and the AUTO_INCREMENT values that a rollback leaves out are not
--   modelled; a text compares by its bytes.
-- * A string constant of a status or a type is a constructor; NULL is `none`; a time is a number of
--   milliseconds, and one action reads one time. A JSON payload is the value that is marshalled.
-- * Concurrent requests are sequences of whole statements and transactions. Rows that a claim locks are
--   taken in one transaction. A read through the pool inside a transaction sees the committed tables,
--   which a transaction's body is given as `base`.
-- * `strings.ToLower` and `strings.TrimSpace` are those of ASCII. Amounts are unbounded integers, as
--   `big.Int` is; a configured number that is not positive counts as 0.
-- * Loops are recursion on the list that the source ranges over. Fuel is used in three places. In
--   Exchange.Wei.digits a number is its own bound: it has no more digits than its value. In
--   Indexer.Engine.send_range every round but the last fills a place of the channel, so one round more
--   than its capacity is enough. Indexer.GapScan.scan has a round for each number that it scans.
-- * A block number and a nonce are natural numbers. The wrap-around of `uint64` is written out in the
--   backfill, in the start of a scan, in the confirmations of a tracked transaction, in the nonces and in
--   the counters of the pipeline; elsewhere, as in the loop of a scan, numbers below 2 ^ 64 are assumed.
--   The node is a record of its answers, Indexer.Node; where the code asks it again later, a second
--   record stands for the later answers. A goroutine's loop is modelled by one
--   of its rounds, and nothing takes jobs out of the channel during a round.
-- * What the exchange calls outside of it (wallets, signer, sends, address syntax) is the record
--   Exchange.Withdraw.Outside, the node of the syncer is Balance.Syncer.Syncer; the merchant's HTTP
--   endpoint is Webhook.Engine.Settings.post; the node and the signing are Tx.Node and Indexer.Node, the `abi` package is Indexer.Events.Abi. The hashes of
--   the transactions that Tx.Service hands to the node are kept in the world.
--
-- Not modelled: that the indexer and the tracker start a balance refresh aside; Redis; the HTTP and gRPC
-- interfaces, which parse a request and call one of the services above; configuration; the crawler;
-- logging and metrics.
pub mod Prelude
pub mod Sql
pub mod Schema
pub mod Balance
pub mod Cache
pub mod Pipeline
pub mod Indexer
pub mod Exchange
pub mod Webhook
pub mod Tx
