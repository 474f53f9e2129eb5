-- ===== src/Exchange/Reconcile.antt =====
-- internal/exchange/reconcile.go: the balances of the hot and treasury wallets against what the users
-- own, with SumUserLiabilities and ListBalances of internal/exchange/store.go.
pub mod Report
use gin_demo.Prelude.{
  ℕ, Bool, true, false, ◌&&◌, Option, none, some, List, [], ◌∷◌, ◌++◌, select, sort_by,
}
use gin_demo.Prelude.Int.{ℤ, pos, ◌+ℤ◌, ◌-ℤ◌, is_negative, leb_ℤ}
use gin_demo.Prelude.Text.{Text, text_eq, text_leb}
use gin_demo.Sql.{Result, ok, err, no_rows, pure, lift, ◌>>=◌, now, query, choose, attempt}
use gin_demo.Schema.{Action}
use gin_demo.Balance.Registry.{CustodialWallet, WalletType}
use gin_demo.Balance.Types.{Row}
use gin_demo.Balance.Store as Balance
use gin_demo.Exchange.Types.{AccountBalance}
use gin_demo.Exchange.Wei.{set_string, parse_wei, big_string, wei_string, wei_zero, wei_add}
use gin_demo.Exchange.Ledger.{norm_token}

pub record ReconcileDetail : Type 0 where
  pub address : Text
  pub wallet_type : WalletType
  pub balance_wei : Text

pub record ReconcileReport : Type 0 where
  pub token_address : Text
  pub on_chain_custodial : Text
  pub user_liabilities : Text
  pub diff_wei : Text
  pub is_ok : Bool
  pub generated_at : ℕ
  pub details : List ReconcileDetail

abbrev pub decimal_or_zero : Option ℤ → ℤ
decimal_or_zero none = pos 0
decimal_or_zero (some v) = v

-- `CAST(… AS DECIMAL(65,0))`, for a text of at most 65 digits; one that is no number counts as zero
abbrev pub cast_decimal : Text → ℤ
cast_decimal s = decimal_or_zero (set_string s)

abbrev pub liability : AccountBalance → ℤ
liability a = cast_decimal a.available_wei +ℤ cast_decimal a.frozen_wei

abbrev pub sum_liabilities : List AccountBalance → ℤ
sum_liabilities [] = pos 0
sum_liabilities (a ∷ rows) = liability a +ℤ sum_liabilities rows

abbrev pub of_token : Text → AccountBalance → Bool
of_token token a = text_eq a.token_address (norm_token token)

unfoldable pub sum_user_liabilities : Text → Action Text
unfolding big_string set_string ◌+ℤ◌
sum_user_liabilities token =
    query (λ db. ok (big_string (sum_liabilities (select (of_token token) db.exchange.accounts))))

unfoldable pub list_balances : Text → Action (List AccountBalance)
list_balances user = query (λ db. ok (
    sort_by (λ a b. text_leb a.token_address b.token_address)
      (select (λ a. text_eq a.user_id user) db.exchange.accounts)))

abbrev pub is_custodial : WalletType → Bool
is_custodial WalletType.hot = true
is_custodial WalletType.treasury = true
is_custodial WalletType.deposit = false

-- the balances added up so far, and the wallets that were counted
abbrev pub Tally : Type 0
Tally = ℤ × List ReconcileDetail

abbrev pub counted_balance : Result ℤ → Row → CustodialWallet → Tally → Tally
counted_balance (err e) row w acc = acc
counted_balance (ok v) row w (sum, details) = (
  wei_add sum v,
  details
      ++ (record { address = w.address; wallet_type = w.wallet_type; balance_wei = row.balance_wei }
          ∷ []),
)

abbrev pub counted : Result Row → CustodialWallet → Tally → Tally
counted (err e) w acc = acc
counted (ok row) w acc = counted_balance (parse_wei row.balance_wei) row w acc

-- the loop over the wallets: one without a readable balance is passed over
unfoldable pub tally : Text → List CustodialWallet → Tally → Action Tally
unfolding Balance.get wei_add parse_wei
tally token [] acc = pure acc
tally token (w ∷ rest) acc =
    choose (is_custodial w.wallet_type) (attempt (Balance.get w.address token)) (pure (err no_rows))
    >>= λ row. tally token rest (counted row w acc)

abbrev pub is_zero : ℤ → Bool
is_zero v = leb_ℤ v (pos 0) && leb_ℤ (pos 0) v

-- `reconcileToken`; liabilities that do not parse, which a negative sum would be, are a nil pointer
-- that the subtraction panics on, which is an error here
unfoldable pub reconcile_token : Text → List CustodialWallet → Action ReconcileReport
unfolding tally wei_zero sum_user_liabilities ◌-ℤ◌ big_string wei_string parse_wei
reconcile_token token wallets = do
  (on_chain, details) ← tally token wallets (wei_zero, [])
  liabilities ← sum_user_liabilities token
  liab ← lift (parse_wei liabilities)
  at ← now
  pure (record {
    token_address = norm_token token;
    on_chain_custodial = wei_string (some on_chain);
    user_liabilities = liabilities;
    diff_wei = big_string (on_chain -ℤ liab);
    is_ok = is_zero (on_chain -ℤ liab);
    generated_at = at;
    details = details;
  })

abbrev reconcile_each : List Text → List CustodialWallet → Action (List ReconcileReport)
reconcile_each [] wallets = pure []
reconcile_each (token ∷ rest) wallets = do
  report ← reconcile_token token wallets
  reports ← reconcile_each rest wallets
  pure (report ∷ reports)

abbrev or_native : List Text → List Text
or_native [] = [] ∷ []
or_native (token ∷ rest) = token ∷ rest

-- `Run`
unfoldable pub run : List Text → Action (List ReconcileReport)
unfolding reconcile_token Balance.list_wallets
run tokens = do
  wallets ← Balance.list_wallets [] none true 500
  reconcile_each (or_native tokens) wallets

-- `RunReconcile`, given the configured tokens
unfoldable pub run_reconcile : List Text → Action (List ReconcileReport)
unfolding run
run_reconcile watch_tokens = run ([] ∷ watch_tokens)
