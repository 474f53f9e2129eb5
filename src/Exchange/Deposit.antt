-- ===== src/Exchange/Deposit.antt =====
-- internal/exchange/deposit.go: deposits are captured once their block is confirmed, and reversed
-- when a reorg removes the block. Both run inside a transaction of the indexer, whose working tables
-- they see; `base` is what stands committed, which a notifier may read past the transaction.
pub mod Books
pub mod Audit
pub mod Recapture
pub mod Beside
pub mod Captures
use gin_demo.Prelude.{
  ℕ, Bool, true, false, not, ◌&&◌, ◌||◌, Option, none, some, List, [], ◌∷◌, ◌==◌, is_some, any,
  if◌then◌else◌,
}
use gin_demo.Prelude.Int.{ℤ, is_nonpositive}
use gin_demo.Prelude.Text.{Text, text_eq, to_lower, is_empty}
use gin_demo.Sql.{Result, ok, err, pure, ◌>>=◌, ◌>>◌, in_tx, choose}
use gin_demo.Schema.{Db, Action}
use gin_demo.Balance.Registry.{Registry, CustodialWallet, WalletType, get}
use gin_demo.Exchange.Types.{Deposit, DepositStatus, EntryType, CaptureDepositParams, deposit_tag}
use gin_demo.Exchange.Wei.{parse_wei}
use gin_demo.Exchange.Ledger.{credit_deposit, reverse_deposit}
use gin_demo.Exchange.Store.{
  insert_deposit, get_deposit_by_key, reset_deposit_for_recredit, mark_deposit_credited,
  has_ledger_entry, orphan_deposits_from_block,
}

-- `DepositNotifier.EnqueueDepositTx`
abbrev pub DepositNotifier : Type 0
DepositNotifier = Db → Deposit → Action (Unit {0})

-- The processor with the settings that it reads; `tokens` are the watched contracts in lower case.
pub record DepositProcessor : Type 0 where
  pub exchange_enabled : Bool
  pub deposit_enabled : Bool
  pub exchange_confirm_depth : ℕ
  pub indexer_confirm_depth : ℕ
  pub registry : Option Registry
  pub tokens : List Text
  pub webhook : Option DepositNotifier

unfoldable pub enabled : DepositProcessor → Bool
enabled p = p.exchange_enabled && p.deposit_enabled

unfoldable pub confirm_depth : DepositProcessor → ℕ
confirm_depth p =
    if p.exchange_confirm_depth == 0 then p.indexer_confirm_depth else p.exchange_confirm_depth

-- `IsWatchToken`
unfoldable pub is_watch_token : DepositProcessor → Text → Bool
is_watch_token p contract = any (λ t. text_eq t (to_lower contract)) p.tokens

abbrev is_deposit_type : WalletType → Bool
is_deposit_type WalletType.deposit = true
is_deposit_type _ = false

abbrev wallet_of : Option Registry → Text → Option CustodialWallet
wallet_of none to = none
wallet_of (some r) to = get to r

-- the wallet's user, if the address is an enabled deposit address that has one
abbrev user_of : Option CustodialWallet → Option Text
user_of none = none
user_of (some w) =
    if is_deposit_type w.wallet_type && w.enabled && not (is_empty w.user_id)
    then some w.user_id
    else none

abbrev is_amount : Result ℤ → Bool
is_amount (err _) = false
is_amount (ok v) = not (is_nonpositive v)

abbrev notify : Option DepositNotifier → Db → CaptureDepositParams → Action (Unit {0})
notify none base p = pure tt
notify (some enqueue) base p = do dep ← get_deposit_by_key p.tx_hash p.log_index; enqueue base dep

-- the end of `captureAndCredit`: credit unless the journal has the credit already
unfoldable pub credit_once :
    Option DepositNotifier → Db → CaptureDepositParams → ℕ → Action (Unit {0})
credit_once webhook base p id = do
  has_credit ← has_ledger_entry id EntryType.deposit_credit
  choose has_credit (mark_deposit_credited id) (do
    credit_deposit p.user_id p.token_address p.amount_wei id
    mark_deposit_credited id
    notify webhook base p)

-- the `switch` on the status
unfoldable pub settle :
    DepositStatus → Option DepositNotifier → Db → CaptureDepositParams → ℕ → Action (Unit {0})
unfolding credit_once
settle DepositStatus.credited webhook base p id = pure tt
settle DepositStatus.orphaned webhook base p id = do
  reset_deposit_for_recredit id p.block_number
  credit_once webhook base p id
settle DepositStatus.pending webhook base p id = credit_once webhook base p id

-- `captureAndCredit`: an id of 0 says that the row was there before
unfoldable pub capture_and_credit :
    Option DepositNotifier → Db → CaptureDepositParams → Action (Unit {0})
unfolding settle
capture_and_credit webhook base p = do
  new_id ← insert_deposit p
  dep ← get_deposit_by_key p.tx_hash p.log_index
  settle dep.status webhook base p (if new_id == 0 then dep.id else new_id)

abbrev pub capture_for :
    Option Text → DepositProcessor → Db → (Text → CaptureDepositParams) → Action (Unit {0})
capture_for none p base params = pure tt
capture_for (some user) p base params = capture_and_credit p.webhook base (params user)

-- `CaptureNativeTx`
unfoldable pub capture_native_tx :
    DepositProcessor → Db → ℕ → Text → Text → Text → Text → Bool → Action (Unit {0})
unfolding capture_and_credit enabled
capture_native_tx p base block tx_hash from to value_wei success =
    choose (not (enabled p) || not success || is_empty to || not (is_amount (parse_wei value_wei)))
      (pure tt)
      (capture_for (user_of (wallet_of p.registry to)) p base λ user. record {
        user_id = user;
        deposit_address = to;
        token_address = [];
        amount_wei = value_wei;
        tx_hash = tx_hash;
        log_index = 0;
        block_number = block;
      })

-- `CaptureERC20Transfer`
unfoldable pub capture_erc20_transfer :
    DepositProcessor → Db → ℕ → Text → ℕ → Text → Text → Text → Text → Action (Unit {0})
unfolding capture_and_credit enabled is_watch_token
capture_erc20_transfer p base block tx_hash log_index contract from to amount_wei =
    choose
      (not (enabled p)
        || is_empty to
        || not (is_watch_token p contract)
        || not (is_amount (parse_wei amount_wei)))
      (pure tt)
      (capture_for (user_of (wallet_of p.registry to)) p base λ user. record {
        user_id = user;
        deposit_address = to;
        token_address = contract;
        amount_wei = amount_wei;
        tx_hash = tx_hash;
        log_index = log_index;
        block_number = block;
      })

-- the body of the loop of `HandleReorgTx`
unfoldable pub reverse_one : Deposit → Action (Unit {0})
reverse_one dep =
    choose (deposit_tag dep.status == deposit_tag DepositStatus.credited)
      (do
        reversed ← has_ledger_entry dep.id EntryType.deposit_reverse
        has_credit ← choose reversed (pure false) (has_ledger_entry dep.id EntryType.deposit_credit)
        choose has_credit (reverse_deposit dep.user_id dep.token_address dep.amount_wei dep.id)
            (pure tt))
      (pure tt)

unfoldable pub reverse_all : List Deposit → Action (Unit {0})
reverse_all [] = pure tt
reverse_all (dep ∷ rest) = do reverse_one dep; reverse_all rest

-- `HandleReorgTx`
unfoldable pub handle_reorg_tx : DepositProcessor → ℕ → Action (Unit {0})
unfolding enabled
handle_reorg_tx p from =
    choose (enabled p) (do deps ← orphan_deposits_from_block from; reverse_all deps) (pure tt)

-- `HandleReorg`
unfoldable pub handle_reorg : DepositProcessor → ℕ → Action (Unit {0})
unfolding enabled
handle_reorg p from = choose (enabled p) (in_tx (λ base. handle_reorg_tx p from)) (pure tt)
