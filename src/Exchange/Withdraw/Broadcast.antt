-- ===== src/Exchange/Withdraw/Broadcast.antt =====
-- internal/exchange/service.go: how an approved withdrawal is sent, and what is recorded of it.
use gin_demo.Prelude.{
  ℕ, Bool, true, false, not, ◌&&◌, ◌||◌, none, some, List, [], ◌∷◌, ◌++◌, if◌then◌else◌,
}
use gin_demo.Prelude.Int.{ℤ, pos, leb_ℤ}
use gin_demo.Prelude.Text.{Text, codes, to_lower, is_empty}
use gin_demo.Sql.{
  Result, ok, err, invalid_withdraw_state, no_hot_wallet, not_configured, withdraw_already_handled,
  pure, lift, ◌>>=◌, ◌>>◌, guard, choose, in_tx, attempt,
}
use gin_demo.Schema.{Action}
use gin_demo.Balance.Registry.{CustodialWallet, WalletType}
use gin_demo.Exchange.Types.{WithdrawRequest, WithdrawStatus}
use gin_demo.Exchange.Wei.{parse_wei, decimal}
use gin_demo.Exchange.Store.Withdraws.{
  get_withdraw, update_withdraw_status_if, update_withdraw_status,
}
use gin_demo.Exchange.Withdraw.{Outside, Settings, SendMeta, is_status, fail_withdraw_and_unfreeze}

-- `failBroadcast`
unfoldable pub fail_broadcast : WithdrawRequest → Text → Action (Unit {0})
unfolding fail_withdraw_and_unfreeze
fail_broadcast w reason = in_tx (λ base. fail_withdraw_and_unfreeze w reason)

abbrev is_hot : WalletType → Bool
is_hot WalletType.hot = true
is_hot _ = false

abbrev is_treasury : WalletType → Bool
is_treasury WalletType.treasury = true
is_treasury _ = false

-- The loop that keeps the first address of a kind: `keep` is `hot` or `cold` so far, empty at first.
unfoldable pub first_of_kind : (WalletType → Bool) → Text → List CustodialWallet → Text
unfolding is_empty
first_of_kind kind keep [] = keep
first_of_kind kind keep (w ∷ rest) =
    first_of_kind kind (if kind w.wallet_type && is_empty keep then w.address else keep) rest

unfoldable pub route : Bool → Text → Text → Result Text
unfolding is_empty
route use_hot hot cold =
    if use_hot && not (is_empty hot)
    then ok hot
    else if not (is_empty cold)
    then ok cold
    else if not (is_empty hot)
    then ok hot
    else err no_hot_wallet

-- `threshold.Sign() == 0 || amt <= threshold`
unfoldable pub use_hot : ℤ → ℤ → Bool
use_hot threshold amt = (leb_ℤ threshold (pos 0) && leb_ℤ (pos 0) threshold) || leb_ℤ amt threshold

-- `selectFromWallet`
unfoldable pub select_from_wallet : Outside → Settings → WithdrawRequest → Action Text
unfolding first_of_kind route use_hot
select_from_wallet o s w = do
  amt ← lift (parse_wei w.amount_wei)
  wallets ← o.list_wallets
  lift (
      route (use_hot s.hot_withdraw_max amt) (first_of_kind is_hot [] wallets)
        (first_of_kind is_treasury [] wallets))

abbrev send_meta : ℕ → SendMeta
send_meta id = record {
  biz_id = codes "withdraw:" ++ decimal id;
  idempotency_key = codes "withdraw-broadcast:" ++ decimal id;
}

-- the wallet, the key and the send of `ProcessApprovedWithdraw`
unfoldable pub broadcast : Outside → Settings → WithdrawRequest → Action (Text × Text)
unfolding select_from_wallet
broadcast o s w = do
  wallet ← select_from_wallet o s w
  o.private_key wallet
  hash ←
      choose (is_empty w.token_address)
        (o.send_native wallet w.to_address w.amount_wei (send_meta w.id))
        (o.send_erc20 wallet w.token_address w.to_address w.amount_wei (send_meta w.id))
  pure (wallet, hash)

unfoldable pub record_broadcast :
    Outside → WithdrawRequest → Result (Text × Text) → Action (Unit {0})
unfolding fail_broadcast
record_broadcast o w (err e) = fail_broadcast w (o.message e)
record_broadcast o w (ok (wallet, hash)) =
    update_withdraw_status w.id none WithdrawStatus.broadcasting
      (λ x. record x { from_wallet = some (to_lower wallet); tx_hash = some (to_lower hash) })

-- `ProcessApprovedWithdraw`
unfoldable pub process_approved_withdraw : Outside → Settings → WithdrawRequest → Action (Unit {0})
unfolding broadcast record_broadcast
process_approved_withdraw o s w = do
  guard (is_status WithdrawStatus.approved w) invalid_withdraw_state
  guard s.configured not_configured
  hit ←
      update_withdraw_status_if w.id (some WithdrawStatus.approved) WithdrawStatus.broadcasting
        (λ x. x)
  guard hit withdraw_already_handled
  w' ← get_withdraw w.id
  outcome ← attempt (broadcast o s w')
  record_broadcast o w' outcome
