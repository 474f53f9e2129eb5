-- ===== src/Exchange/Tests.antt =====
-- The exchange's theorems at an account that holds 100 wei, a deposit and a withdrawal.
mod Withdrawals
mod Reports
use gin_demo.Prelude.{
  ℕ, ◌≡◌, ◌≤◌, refl, true, false, none, some, List, [], ◌∷◌, any, find_first, arith, if◌then◌else◌,
  Option,
}
use gin_demo.Prelude.Int.{ℤ, pos, neg}
use gin_demo.Prelude.Text.{Text, codes, text_eq, to_lower, lower_byte}
use gin_demo.Sql.{World, Result, ok, err, insufficient_balance, ◌>>=◌}
use gin_demo.Sql.Rules.{From}
use gin_demo.Schema.{Db, empty_db}
use gin_demo.Exchange.Types.{
  Deposit, DepositStatus, CaptureDepositParams, EntryType, LedgerEntry, RefType, empty_tables,
}
use gin_demo.Exchange.Wei.{parse_wei, wei_string}
use gin_demo.Exchange.Wei.RoundTrip.{parse_wei-wei_string}
use gin_demo.Exchange.Ledger.{
  apply_ledger, credit_op, freeze_op, norm_token, find_account, available_of, frozen_of,
}
use gin_demo.Exchange.Ledger.Posting.{posted}
use gin_demo.Exchange.Ledger.Audit.{
  IsAudited, apply_ledger-IsAudited, credit_op-IsJournalled, freeze_op-IsJournalled,
  empty-IsAudited,
}
use gin_demo.Exchange.Ledger.Outcome.{is_covered, apply_ledger-outcome}
use gin_demo.Exchange.Store.{is_deposit_entry}
use gin_demo.Exchange.Deposit.{DepositProcessor, capture_and_credit, handle_reorg}
use gin_demo.Exchange.Deposit.Audit.{
  capture_and_credit-IsAudited, handle_reorg-IsAudited, IsCreditedOnce,
  capture_and_credit-IsCreditedOnce,
}
use gin_demo.Exchange.Deposit.Recapture.{
  SameMoney, capture_and_credit-credited, recapture-SameMoney, Stored,
}

abbrev alice : Text
alice = codes "alice"

abbrev calm : Db → World Db
calm d = record { db = d; faults = []; clock = 9 }

parse_wei-wei_string_example : parse_wei (wei_string (some (pos 120))) ≡ ok (pos 120)
parse_wei-wei_string_example = parse_wei-wei_string 120

abbrev capture : CaptureDepositParams
capture = record {
  user_id = alice;
  deposit_address = codes "0xd";
  token_address = [];
  amount_wei = codes "100";
  tx_hash = codes "0xT";
  log_index = 0;
  block_number = 5;
}

abbrev stored_deposit : DepositStatus → Deposit
stored_deposit status = record {
  id = 1;
  user_id = alice;
  deposit_address = codes "0xd";
  token_address = [];
  amount_wei = codes "100";
  tx_hash = codes "0xt";
  log_index = 0;
  block_number = 5;
  status = status;
  credited_at = none;
  created_at = 1;
}

abbrev credit_entry : LedgerEntry
credit_entry = record {
  id = 1;
  user_id = alice;
  token_address = [];
  entry_type = EntryType.deposit_credit;
  amount_wei = codes "100";
  ref_type = some RefType.deposit;
  ref_id = some 1;
  balance_available_after = codes "100";
  balance_frozen_after = codes "0";
  created_at = 1;
}

-- The deposit is stored, and the journal has its credit.
abbrev with_deposit : DepositStatus → List LedgerEntry → Db
with_deposit status entries = record empty_db {
  exchange = record empty_tables {
    deposits = stored_deposit status ∷ [];
    entries = entries;
    next_deposit_id = 2;
  };
}

there :
    (status : DepositStatus) (entries : List LedgerEntry)
    → Stored capture (stored_deposit status) (with_deposit status entries)
unfolding text_eq to_lower lower_byte
there status entries = refl

read_100 : parse_wei (codes "100") ≡ ok (pos 100)
unfolding parse_wei
read_100 = refl

empty_db-IsAudited : IsAudited empty_db
empty_db-IsAudited = empty-IsAudited empty_db refl refl

apply_ledger-IsAudited_example :
    From empty_db (apply_ledger alice [] (credit_op 1 (pos 100))) (λ _ d'. IsAudited d')
apply_ledger-IsAudited_example =
    apply_ledger-IsAudited alice [] (credit_op 1 (pos 100)) empty_db
      (credit_op-IsJournalled 1 (codes "100") (pos 100) read_100) empty_db-IsAudited

apply_ledger-outcome_example :
    ((apply_ledger alice [] (freeze_op 1 (pos 100)) (calm empty_db)).0 ≡ (
      if is_covered (freeze_op 1 (pos 100)) (pos 0) (pos 0)
      then ok tt
      else err insufficient_balance))
    × ((apply_ledger alice [] (freeze_op 1 (pos 100)) (calm empty_db)).1.db ≡ (
        if is_covered (freeze_op 1 (pos 100)) (pos 0) (pos 0)
        then posted alice (norm_token []) (freeze_op 1 (pos 100)) 9 (pos 0) (pos 0) empty_db
        else empty_db))
unfolding parse_wei find_account
apply_ledger-outcome_example =
    apply_ledger-outcome alice [] (freeze_op 1 (pos 100)) (pos 0) (pos 0) (calm empty_db) refl refl
      refl

capture_and_credit-IsCreditedOnce_example :
    From
      (with_deposit DepositStatus.pending (credit_entry ∷ []))
      (capture_and_credit none empty_db capture)
      (λ _ d'. IsCreditedOnce d')
capture_and_credit-IsCreditedOnce_example =
    capture_and_credit-IsCreditedOnce none empty_db capture
      (with_deposit DepositStatus.pending (credit_entry ∷ [])) tt (λ id. ground arith)

abbrev processor : DepositProcessor
processor = record {
  exchange_enabled = true;
  deposit_enabled = true;
  exchange_confirm_depth = 3;
  indexer_confirm_depth = 12;
  registry = none;
  tokens = [];
  webhook = none;
}

recapture-SameMoney_example :
    From
      (with_deposit DepositStatus.orphaned (credit_entry ∷ []))
      (capture_and_credit none empty_db capture)
      (λ _ d'. SameMoney (with_deposit DepositStatus.orphaned (credit_entry ∷ [])) d')
recapture-SameMoney_example =
    recapture-SameMoney none empty_db capture (stored_deposit DepositStatus.orphaned)
      (with_deposit DepositStatus.orphaned (credit_entry ∷ []))
      (there DepositStatus.orphaned (credit_entry ∷ [])) refl refl
