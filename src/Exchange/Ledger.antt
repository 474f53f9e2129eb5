-- ===== src/Exchange/Ledger.antt =====
-- internal/exchange/ledger.go: every change of a balance goes through `apply_ledger`, which moves the
-- account and appends one journal entry.
pub mod Accounts
pub mod Posting
pub mod Audit
pub mod Outcome
use gin_demo.Prelude.{
  ℕ, suc, ◌+◌, Bool, true, false, not, ◌&&◌, Option, none, some, List, [], ◌∷◌, find_first,
  if◌then◌else◌,
}
use gin_demo.Prelude.Int.{ℤ, neg, is_negative}
use gin_demo.Prelude.Text.{Text, codes, text_eq, to_lower, trim_space}
use gin_demo.Sql.{
  Result, ok, err, Session, pure, lift, ◌>>=◌, ◌>>◌, guard, now, exec, query, insufficient_balance,
}
use gin_demo.Schema.{Db, Action}
use gin_demo.Exchange.Types.{
  AccountBalance, LedgerEntry, EntryType, RefType, Tables, entry_tag, ref_tag,
}
use gin_demo.Exchange.Wei.{wei_zero, parse_wei, wei_string, wei_add}

pub record LedgerOp : Type 0 where
  pub entry_type : EntryType
  pub amount : ℤ
  pub ref_type : Option RefType
  pub ref_id : ℕ
  pub delta_avail : ℤ
  pub delta_frozen : ℤ

-- `normToken` of store.go
unfoldable pub norm_token : Text → Text
norm_token token = to_lower (trim_space token)

abbrev pub owns : Text → Text → AccountBalance → Bool
owns user token a = text_eq a.user_id user && text_eq a.token_address token

unfoldable pub find_account : Text → Text → List AccountBalance → Option AccountBalance
find_account user token accounts = find_first (owns user token) accounts

-- a missing row counts as two zeros
abbrev pub available_of : Option AccountBalance → Text
available_of none = codes "0"
available_of (some a) = a.available_wei

abbrev pub frozen_of : Option AccountBalance → Text
frozen_of none = codes "0"
frozen_of (some a) = a.frozen_wei

-- `INSERT … ON DUPLICATE KEY UPDATE` on `user_ledger_accounts`
unfoldable pub upsert_account :
    Text → Text → Text → Text → ℕ → List AccountBalance → List AccountBalance
upsert_account user token avail frozen at [] =
    record {
      user_id = user;
      token_address = token;
      available_wei = avail;
      frozen_wei = frozen;
      updated_at = at;
    }
    ∷ []
upsert_account user token avail frozen at (a ∷ rest) =
    if owns user token a
    then record a { available_wei = avail; frozen_wei = frozen; updated_at = at } ∷ rest
    else a ∷ upsert_account user token avail frozen at rest

unfoldable pub write_account : Text → Text → Text → Text → ℕ → Db → Result (Unit {0} × Db)
write_account user token avail frozen at db = ok (
  tt,
  record db {
    exchange = record (db.exchange) {
      accounts = upsert_account user token avail frozen at db.exchange.accounts;
    };
  },
)

abbrev pub ref_id_of : Option RefType → ℕ → Option ℕ
ref_id_of none id = none
ref_id_of (some t) id = some id

abbrev pub entry_of : Text → Text → LedgerOp → Text → Text → ℕ → ℕ → LedgerEntry
entry_of user token op avail frozen at id = record {
  id = id;
  user_id = user;
  token_address = token;
  entry_type = op.entry_type;
  amount_wei = wei_string (some op.amount);
  ref_type = op.ref_type;
  ref_id = ref_id_of op.ref_type op.ref_id;
  balance_available_after = avail;
  balance_frozen_after = frozen;
  created_at = at;
}

-- `INSERT INTO ledger_entries`
unfoldable pub write_entry : Text → Text → LedgerOp → Text → Text → ℕ → Db → Result (Unit {0} × Db)
write_entry user token op avail frozen at db =
    let t = db.exchange in
    ok (
      tt,
      record db {
        exchange = record t {
          entries = entry_of user token op avail frozen at t.next_entry_id ∷ t.entries;
          next_entry_id = suc t.next_entry_id;
        };
      },
    )

-- `applyLedgerTx`, from the point where both balances are parsed
unfoldable pub post_entry : Text → Text → LedgerOp → ℕ → ℤ → ℤ → Action (Unit {0})
post_entry user token op at avail frozen = do
  let new_avail = wei_add avail op.delta_avail
  guard (not (is_negative new_avail)) insufficient_balance
  let new_frozen = wei_add frozen op.delta_frozen
  guard (not (is_negative new_frozen)) insufficient_balance
  exec (write_account user token (wei_string (some new_avail)) (wei_string (some new_frozen)) at)
  exec (write_entry user token op (wei_string (some new_avail)) (wei_string (some new_frozen)) at)

unfoldable pub apply_normalised : Text → Text → LedgerOp → Action (Unit {0})
unfolding post_entry
apply_normalised user token op = do
  at ← now
  account ← query (λ db. ok (find_account user token db.exchange.accounts))
  avail ← lift (parse_wei (available_of account))
  frozen ← lift (parse_wei (frozen_of account))
  post_entry user token op at avail frozen

unfoldable pub apply_ledger : Text → Text → LedgerOp → Action (Unit {0})
unfolding apply_normalised
apply_ledger user token op = apply_normalised user (norm_token token) op

unfoldable pub credit_op : ℕ → ℤ → LedgerOp
credit_op id amt = record {
  entry_type = EntryType.deposit_credit;
  amount = amt;
  ref_type = some RefType.deposit;
  ref_id = id;
  delta_avail = amt;
  delta_frozen = wei_zero;
}

unfoldable pub reverse_op : ℕ → ℤ → LedgerOp
reverse_op id amt = record {
  entry_type = EntryType.deposit_reverse;
  amount = amt;
  ref_type = some RefType.deposit;
  ref_id = id;
  delta_avail = neg amt;
  delta_frozen = wei_zero;
}

unfoldable pub freeze_op : ℕ → ℤ → LedgerOp
freeze_op id amt = record {
  entry_type = EntryType.withdraw_freeze;
  amount = amt;
  ref_type = some RefType.withdraw;
  ref_id = id;
  delta_avail = neg amt;
  delta_frozen = amt;
}

unfoldable pub unfreeze_op : ℕ → ℤ → LedgerOp
unfreeze_op id amt = record {
  entry_type = EntryType.withdraw_unfreeze;
  amount = amt;
  ref_type = some RefType.withdraw;
  ref_id = id;
  delta_avail = amt;
  delta_frozen = neg amt;
}

unfoldable pub debit_op : ℕ → ℤ → LedgerOp
debit_op id amt = record {
  entry_type = EntryType.withdraw_debit;
  amount = amt;
  ref_type = some RefType.withdraw;
  ref_id = id;
  delta_avail = wei_zero;
  delta_frozen = neg amt;
}

unfoldable pub payment_debit_op : ℕ → ℤ → LedgerOp
payment_debit_op id amt = record {
  entry_type = EntryType.payment_debit;
  amount = amt;
  ref_type = some RefType.payment;
  ref_id = id;
  delta_avail = neg amt;
  delta_frozen = wei_zero;
}

unfoldable pub payment_credit_op : ℕ → ℤ → LedgerOp
payment_credit_op id amt = record {
  entry_type = EntryType.payment_credit;
  amount = amt;
  ref_type = some RefType.payment;
  ref_id = id;
  delta_avail = amt;
  delta_frozen = wei_zero;
}

-- the shape of the five methods below: parse the amount, then post
abbrev pub post_amount : Text → Text → Text → (ℤ → LedgerOp) → Action (Unit {0})
post_amount user token amount op = do
  amt ← lift (parse_wei amount)
  apply_ledger user token (op amt)

-- `creditDepositTx`
unfoldable pub credit_deposit : Text → Text → Text → ℕ → Action (Unit {0})
credit_deposit user token amount id = post_amount user token amount (credit_op id)

-- `reverseDepositTx`
unfoldable pub reverse_deposit : Text → Text → Text → ℕ → Action (Unit {0})
reverse_deposit user token amount id = post_amount user token amount (reverse_op id)

-- `freezeWithdrawTx`
unfoldable pub freeze_withdraw : Text → Text → Text → ℕ → Action (Unit {0})
freeze_withdraw user token amount id = post_amount user token amount (freeze_op id)

-- `unfreezeWithdrawTx`
unfoldable pub unfreeze_withdraw : Text → Text → Text → ℕ → Action (Unit {0})
unfreeze_withdraw user token amount id = post_amount user token amount (unfreeze_op id)

-- `debitWithdrawTx`
unfoldable pub debit_withdraw : Text → Text → Text → ℕ → Action (Unit {0})
debit_withdraw user token amount id = post_amount user token amount (debit_op id)

-- `TransferInternalTx`
unfoldable pub transfer_internal : Text → Text → Text → Text → ℕ → Action (Unit {0})
transfer_internal payer merchant token amount id = do
  amt ← lift (parse_wei amount)
  apply_ledger payer token (payment_debit_op id amt)
  apply_ledger merchant token (payment_credit_op id amt)
