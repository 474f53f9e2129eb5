-- ===== src/Exchange/Types.antt =====
-- internal/exchange/types.go and the tables of internal/exchange/schema.go. The string constants of
-- a status or an entry type are the constructors of an enumeration; a nullable column is an
-- `Option`; a time is a number. Every query of the store is restricted to the chain of the store
-- and every insert writes it, so the tables hold the rows of that one chain.
use gin_demo.Prelude.{ℕ, Option, List, []}
use gin_demo.Prelude.Text.{Text}

pub data DepositStatus : Type 0 where
  pending credited orphaned : DepositStatus

pub data WithdrawStatus : Type 0 where
  pending_review approved rejected broadcasting confirmed failed cancelled : WithdrawStatus

pub data EntryType : Type 0 where
  deposit_credit deposit_reverse : EntryType
  withdraw_freeze withdraw_unfreeze withdraw_debit : EntryType
  payment_debit payment_credit : EntryType

pub data RefType : Type 0 where
  deposit withdraw payment : RefType

abbrev pub deposit_tag : DepositStatus → ℕ
deposit_tag DepositStatus.pending = 0
deposit_tag DepositStatus.credited = 1
deposit_tag DepositStatus.orphaned = 2

abbrev pub withdraw_tag : WithdrawStatus → ℕ
withdraw_tag WithdrawStatus.pending_review = 0
withdraw_tag WithdrawStatus.approved = 1
withdraw_tag WithdrawStatus.rejected = 2
withdraw_tag WithdrawStatus.broadcasting = 3
withdraw_tag WithdrawStatus.confirmed = 4
withdraw_tag WithdrawStatus.failed = 5
withdraw_tag WithdrawStatus.cancelled = 6

abbrev pub entry_tag : EntryType → ℕ
entry_tag EntryType.deposit_credit = 0
entry_tag EntryType.deposit_reverse = 1
entry_tag EntryType.withdraw_freeze = 2
entry_tag EntryType.withdraw_unfreeze = 3
entry_tag EntryType.withdraw_debit = 4
entry_tag EntryType.payment_debit = 5
entry_tag EntryType.payment_credit = 6

abbrev pub ref_tag : RefType → ℕ
ref_tag RefType.deposit = 0
ref_tag RefType.withdraw = 1
ref_tag RefType.payment = 2

-- `AccountBalance`, a row of `user_ledger_accounts`
pub record AccountBalance : Type 0 where
  pub user_id : Text
  pub token_address : Text
  pub available_wei : Text
  pub frozen_wei : Text
  pub updated_at : ℕ

-- a row of `ledger_entries`
pub record LedgerEntry : Type 0 where
  pub id : ℕ
  pub user_id : Text
  pub token_address : Text
  pub entry_type : EntryType
  pub amount_wei : Text
  pub ref_type : Option RefType
  pub ref_id : Option ℕ
  pub balance_available_after : Text
  pub balance_frozen_after : Text
  pub created_at : ℕ

-- a row of `deposits`
pub record Deposit : Type 0 where
  pub id : ℕ
  pub user_id : Text
  pub deposit_address : Text
  pub token_address : Text
  pub amount_wei : Text
  pub tx_hash : Text
  pub log_index : ℕ
  pub block_number : ℕ
  pub status : DepositStatus
  pub credited_at : Option ℕ
  pub created_at : ℕ

-- a row of `withdraw_requests`
pub record WithdrawRequest : Type 0 where
  pub id : ℕ
  pub user_id : Text
  pub token_address : Text
  pub to_address : Text
  pub amount_wei : Text
  pub status : WithdrawStatus
  pub from_wallet : Option Text
  pub tx_hash : Option Text
  pub reviewer : Option Text
  pub reviewed_at : Option ℕ
  pub reject_reason : Option Text
  pub idempotency_key : Option Text
  pub created_at : ℕ
  pub updated_at : ℕ

pub record CreateWithdrawParams : Type 0 where
  pub user_id : Text
  pub token_address : Text
  pub to_address : Text
  pub amount_wei : Text
  pub idempotency_key : Text

pub record CaptureDepositParams : Type 0 where
  pub user_id : Text
  pub deposit_address : Text
  pub token_address : Text
  pub amount_wei : Text
  pub tx_hash : Text
  pub log_index : ℕ
  pub block_number : ℕ

-- The four tables, newest row first, with the next value of each AUTO_INCREMENT column.
pub record Tables : Type 0 where
  pub accounts : List AccountBalance
  pub entries : List LedgerEntry
  pub deposits : List Deposit
  pub withdraws : List WithdrawRequest
  pub next_entry_id : ℕ
  pub next_deposit_id : ℕ
  pub next_withdraw_id : ℕ

abbrev pub empty_tables : Tables
empty_tables = record {
  accounts = [];
  entries = [];
  deposits = [];
  withdraws = [];
  next_entry_id = 1;
  next_deposit_id = 1;
  next_withdraw_id = 1;
}
