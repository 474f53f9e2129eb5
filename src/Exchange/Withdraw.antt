-- ===== src/Exchange/Withdraw.antt =====
-- internal/exchange/service.go: the life of a withdrawal, from the request that freezes the amount to
-- the transaction that pays it. What the service calls outside the exchange is `Outside`.
pub mod Broadcast
pub mod Claim
pub mod Refusal
pub mod Audit
pub mod Beside
use gin_demo.Prelude.{
  ℕ, Bool, true, false, not, ◌&&◌, ◌||◌, Option, none, some, List, [], ◌∷◌, ◌++◌, ◌==◌, ltb,
  is_some, if◌then◌else◌,
}
use gin_demo.Prelude.Int.{ℤ, pos, is_nonpositive, leb_ℤ}
use gin_demo.Prelude.Text.{Text, codes, to_lower, is_empty}
use gin_demo.Sql.{
  Error, Result, ok, err, invalid_wei, invalid_to_address, invalid_withdraw_state, no_hot_wallet,
  not_configured, withdraw_already_handled, pure, fail, lift, ◌>>=◌, ◌>>◌, now, guard, choose, exec,
  query, in_tx, attempt, optional, or_if_duplicate,
}
use gin_demo.Schema.{Db, Action}
use gin_demo.Balance.Registry.{CustodialWallet, WalletType}
use gin_demo.Exchange.Types.{
  WithdrawRequest, WithdrawStatus, CreateWithdrawParams, EntryType, withdraw_tag,
}
use gin_demo.Exchange.Wei.{parse_wei, decimal}
use gin_demo.Exchange.Ledger.{freeze_withdraw, unfreeze_withdraw, debit_withdraw}
use gin_demo.Exchange.Store.{has_ledger_entry}
use gin_demo.Exchange.Store.Withdraws.{
  find_withdraw, get_withdraw, get_withdraw_by_idempotency, get_withdraw_by_tx_hash, add_withdraw,
  update_withdraws, update_withdraw_status_if, update_withdraw_status,
}

-- `tx.SendMeta` as the service fills it
pub record SendMeta : Type 0 where
  pub biz_id : Text
  pub idempotency_key : Text

-- What the service is given: `common.IsHexAddress`, the enabled wallets of the balance store, the
-- signer's look-up of a key, the two sends of the transaction service (from the wallet, for a token,
-- to an address, an amount) which answer the transaction's hash, and the text of an error.
pub record Outside : Type 0 where
  pub is_hex_address : Text → Bool
  pub list_wallets : Action (List CustodialWallet)
  pub private_key : Text → Action (Unit {0})
  pub send_native : Text → Text → Text → SendMeta → Action Text
  pub send_erc20 : Text → Text → Text → Text → SendMeta → Action Text
  pub message : Error → Text

-- `cfg.Exchange`: the hot wallet's limit is given parsed, which the service does without a check.
pub record Settings : Type 0 where
  pub auto_approve_withdraw : Bool
  pub hot_withdraw_max : ℤ
  pub configured : Bool

abbrev pub is_status : WithdrawStatus → WithdrawRequest → Bool
is_status s w = withdraw_tag w.status == withdraw_tag s

-- `insertWithdrawTx`: the row it answers is read past the transaction, from `base`
abbrev inserted : Db → CreateWithdrawParams → Option ℕ → Action (WithdrawRequest × Bool)
inserted base p (some id) = do w ← query (λ db. find_withdraw id base); pure (w, true)
inserted base p none = do w ← get_withdraw_by_idempotency p.idempotency_key; pure (w, false)

unfoldable pub insert_withdraw_tx :
    Db → CreateWithdrawParams → WithdrawStatus → Action (WithdrawRequest × Bool)
insert_withdraw_tx base p status = do
  at ← now
  id ← or_if_duplicate (exec (add_withdraw p status at)) none
  inserted base p id

abbrev is_valid_amount : Result ℤ → Bool
is_valid_amount (err _) = false
is_valid_amount (ok v) = not (is_nonpositive v)

abbrev freeze_once : CreateWithdrawParams → WithdrawRequest × Bool → Action ℕ
freeze_once p (w, created) = do
  has_freeze ← choose created (pure false) (has_ledger_entry w.id EntryType.withdraw_freeze)
  choose has_freeze (pure w.id)
      (freeze_withdraw p.user_id p.token_address p.amount_wei w.id >> pure w.id)

-- `CreateWithdraw`
unfoldable pub create_withdraw_tx : Db → CreateWithdrawParams → WithdrawStatus → Action ℕ
unfolding insert_withdraw_tx
create_withdraw_tx base p status = do row ← insert_withdraw_tx base p status; freeze_once p row

unfoldable pub create_withdraw : Outside → Settings → CreateWithdrawParams → Action WithdrawRequest
unfolding create_withdraw_tx
create_withdraw o s p = do
  guard (is_valid_amount (parse_wei p.amount_wei)) invalid_wei
  guard (o.is_hex_address p.to_address) invalid_to_address
  let status =
      if s.auto_approve_withdraw then WithdrawStatus.approved else WithdrawStatus.pending_review
  id ← in_tx (λ base. create_withdraw_tx base p status)
  get_withdraw id

-- `ApproveWithdraw`
unfoldable pub approve_withdraw : ℕ → Text → Action WithdrawRequest
approve_withdraw id reviewer = do
  at ← now
  hit ←
      update_withdraw_status_if id (some WithdrawStatus.pending_review) WithdrawStatus.approved
        (λ w. record w { reviewer = some reviewer; reviewed_at = some at })
  guard hit invalid_withdraw_state
  get_withdraw id

abbrev as_rejected : ℕ → Text → Text → WithdrawRequest → WithdrawRequest
as_rejected at reviewer reason w = record w {
  status = WithdrawStatus.rejected;
  reviewer = some reviewer;
  reviewed_at = some at;
  reject_reason = some reason;
  updated_at = at;
}

-- the transaction of `RejectWithdraw`
unfoldable pub reject_withdraw_tx : WithdrawRequest → ℕ → Text → Text → Action (Unit {0})
reject_withdraw_tx w id reviewer reason = do
  at ← now
  n ← exec (
      update_withdraws (λ x. x.id == id && is_status WithdrawStatus.pending_review x)
        (as_rejected at reviewer reason))
  guard (ltb 0 n) invalid_withdraw_state
  unfreeze_withdraw w.user_id w.token_address w.amount_wei w.id

-- `RejectWithdraw`
unfoldable pub reject_withdraw : ℕ → Text → Text → Action WithdrawRequest
unfolding reject_withdraw_tx
reject_withdraw id reviewer reason = do
  w ← get_withdraw id
  guard (is_status WithdrawStatus.pending_review w) invalid_withdraw_state
  in_tx (λ base. reject_withdraw_tx w id reviewer reason)
  get_withdraw id

abbrev as_failed : ℕ → Text → WithdrawRequest → WithdrawRequest
as_failed at reason w = record w {
  status = WithdrawStatus.failed;
  reject_reason = some reason;
  updated_at = at;
}

-- `FailWithdrawAndUnfreezeTx` of store.go
unfoldable pub fail_withdraw_and_unfreeze : WithdrawRequest → Text → Action (Unit {0})
fail_withdraw_and_unfreeze w reason = do
  has_unfreeze ← has_ledger_entry w.id EntryType.withdraw_unfreeze
  has_freeze ← choose has_unfreeze (pure false) (has_ledger_entry w.id EntryType.withdraw_freeze)
  choose has_freeze (unfreeze_withdraw w.user_id w.token_address w.amount_wei w.id) (pure tt)
  at ← now
  exec (update_withdraws (λ x. x.id == w.id) (as_failed at reason))
  pure tt

-- the transaction of `OnWithdrawTxConfirmed`
unfoldable pub confirm_withdraw_tx : WithdrawRequest → Action (Unit {0})
confirm_withdraw_tx w = do
  has_debit ← has_ledger_entry w.id EntryType.withdraw_debit
  choose has_debit (pure tt) (debit_withdraw w.user_id w.token_address w.amount_wei w.id)
  at ← now
  exec (
      update_withdraws (λ x. x.id == w.id)
        (λ x. record x { status = WithdrawStatus.confirmed; updated_at = at }))
  pure tt

unfoldable pub when_found :
    (WithdrawRequest → Action (Unit {0})) → Option WithdrawRequest → Action (Unit {0})
when_found f none = pure tt
when_found f (some w) = f w

-- `OnWithdrawTxConfirmed`
unfoldable pub on_withdraw_tx_confirmed : Text → Action (Unit {0})
unfolding confirm_withdraw_tx
on_withdraw_tx_confirmed hash = do
  found ← optional (get_withdraw_by_tx_hash hash)
  when_found
      (λ w.
        choose (is_status WithdrawStatus.broadcasting w || is_status WithdrawStatus.approved w)
          (in_tx (λ base. confirm_withdraw_tx w)) (pure tt))
      found

-- `OnWithdrawTxFailed`
unfoldable pub on_withdraw_tx_failed : Text → Action (Unit {0})
unfolding fail_withdraw_and_unfreeze
on_withdraw_tx_failed hash = do
  found ← optional (get_withdraw_by_tx_hash hash)
  when_found
      (λ w.
        choose (is_status WithdrawStatus.failed w || is_status WithdrawStatus.confirmed w) (pure tt)
          (in_tx (λ base. fail_withdraw_and_unfreeze w (codes "on-chain execution failed"))))
      found
