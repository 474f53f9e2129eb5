-- ===== src/Exchange/Reconcile/Report.antt =====
-- When a reconciliation is reported as in order.
use gin_demo.Prelude.{
  Bool, true, false, ◌&&◌, ◌≡◌, ◌↔◌, true, false, Option, none, some, List, [], ◌∷◌, find_first,
  if◌then◌else◌,
}
use gin_demo.Prelude.Int.{ℤ, pos, ◌+ℤ◌}
use gin_demo.Prelude.Text.{Text, text_eq, to_lower, trim_space}
use gin_demo.Sql.{Result, ok, err, no_rows, first_row}
use gin_demo.Sql.Runs.{Runs}
use gin_demo.Schema.{Db}
use gin_demo.Balance.Registry.{CustodialWallet, WalletType}
use gin_demo.Exchange.Types.{AccountBalance}
use gin_demo.Balance.Types.{Row}
use gin_demo.Balance.Store as Balance
use gin_demo.Exchange.Wei.{set_string, parse_wei}
use gin_demo.Exchange.Reconcile.{is_custodial, ReconcileReport}

abbrev or_zero : Result ℤ → ℤ
or_zero (ok v) = v
or_zero (err e) = pos 0

-- the amount in a stored balance, zero if there is none or it does not parse
abbrev pub amount_of : Option Row → ℤ
amount_of none = pos 0
amount_of (some row) = or_zero (parse_wei row.balance_wei)

abbrev pub stored_balance : Text → CustodialWallet → Db → Option Row
stored_balance token w d =
    find_first
      (λ r.
        text_eq r.address (to_lower w.address)
        && text_eq r.token_address (to_lower (trim_space token)))
      d.balance.rows

abbrev pub is_hot_or_treasury : WalletType → Bool
is_hot_or_treasury WalletType.hot = true
is_hot_or_treasury WalletType.deposit = false
is_hot_or_treasury WalletType.treasury = true

-- the stored balances of the hot and treasury wallets for a token
abbrev pub custodial_total : Text → List CustodialWallet → Db → ℤ
custodial_total token [] d = pos 0
custodial_total token (w ∷ rest) d =
    (if is_hot_or_treasury w.wallet_type then amount_of (stored_balance token w d) else pos 0)
    +ℤ custodial_total token rest d

abbrev number_or_zero : Option ℤ → ℤ
number_or_zero none = pos 0
number_or_zero (some v) = v

-- the available and the frozen amounts of all accounts of a token
abbrev pub total_of : Text → List AccountBalance → ℤ
total_of token [] = pos 0
total_of token (a ∷ rows) =
    if text_eq a.token_address (to_lower (trim_space token))
    then (number_or_zero (set_string a.available_wei) +ℤ number_or_zero (set_string a.frozen_wei))
      +ℤ total_of token rows
    else total_of token rows

abbrev pub liabilities_total : Text → Db → ℤ
liabilities_total token d = total_of token d.exchange.accounts

-- what the loop reads for one wallet
abbrev read_for : Text → CustodialWallet → Db → Result Row
read_for token w d =
    if is_custodial w.wallet_type then first_row (stored_balance token w d) else err no_rows

-- The report is in order exactly when the two totals are equal.
abbrev pub IsExact : Text → List CustodialWallet → Db → ReconcileReport → Type 0
IsExact token wallets d report =
    (report.is_ok ≡ true) ↔ (custodial_total token wallets d ≡ liabilities_total token d)
