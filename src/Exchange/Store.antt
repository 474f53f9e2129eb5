-- ===== src/Exchange/Store.antt =====
-- internal/exchange/store.go: the statements on deposits and on the journal. `UPDATE … WHERE`
-- touches the rows that a test selects.
pub mod Withdraws
use gin_demo.Prelude.{
  ℕ, suc, Bool, ◌&&◌, ◌||◌, Option, none, some, List, [], ◌∷◌, ◌==◌, ltb, leb, if◌then◌else◌,
  find_first, select, take, update_where, count_where, any,
}
use gin_demo.Prelude.Int.{ℤ, pos, ◌+ℤ◌}
use gin_demo.Prelude.Text.{Text, codes, text_eq, to_lower, is_empty}
use gin_demo.Sql.{
  Result, ok, err, duplicate, no_rows, pure, ◌>>=◌, ◌>>◌, now, exec, query, or_if_duplicate, ignore,
  choose, first_row,
}
use gin_demo.Schema.{Db, Action}
use gin_demo.Exchange.Types.{
  AccountBalance, LedgerEntry, Deposit, DepositStatus, EntryType, RefType, CaptureDepositParams,
  deposit_tag, entry_tag, ref_tag,
}
use gin_demo.Exchange.Wei.{parse_wei}
use gin_demo.Exchange.Ledger.{norm_token, find_account}

-- `if limit <= 0 || limit > 500 { limit = 100 }`
unfoldable pub clamp_limit : ℕ → ℕ
clamp_limit limit = if limit == 0 || ltb 500 limit then 100 else limit

-- `GetBalance`: a missing row is a balance of zero
unfoldable pub get_balance : Text → Text → Action AccountBalance
get_balance user token = do
  at ← now
  account ← query (λ db. ok (find_account user (norm_token token) db.exchange.accounts))
  pure (elim account [
    | some a ↦ a
    | none ↦ record {
      user_id = user;
      token_address = norm_token token;
      available_wei = codes "0";
      frozen_wei = codes "0";
      updated_at = at;
    }
  ])

-- `ListEntries`
unfoldable pub list_entries : Text → ℕ → Action (List LedgerEntry)
unfolding clamp_limit
list_entries user limit =
    query (λ db.
      ok (take (clamp_limit limit) (select (λ e. text_eq e.user_id user) db.exchange.entries)))

abbrev pub has_deposit_key : Text → ℕ → Deposit → Bool
has_deposit_key tx_hash log_index d = text_eq d.tx_hash tx_hash && d.log_index == log_index

abbrev pub deposit_row : CaptureDepositParams → ℕ → ℕ → Deposit
deposit_row p at id = record {
  id = id;
  user_id = p.user_id;
  deposit_address = to_lower p.deposit_address;
  token_address = norm_token p.token_address;
  amount_wei = p.amount_wei;
  tx_hash = to_lower p.tx_hash;
  log_index = p.log_index;
  block_number = p.block_number;
  status = DepositStatus.pending;
  credited_at = none;
  created_at = at;
}

-- `INSERT INTO deposits` under the unique key (chain_id, tx_hash, log_index); `LastInsertId`
unfoldable pub add_deposit : CaptureDepositParams → ℕ → Db → Result (ℕ × Db)
add_deposit p at db =
    let t = db.exchange in
    if any (has_deposit_key (to_lower p.tx_hash) p.log_index) t.deposits
    then err duplicate
    else ok (
      t.next_deposit_id,
      record db {
        exchange = record t {
          deposits = deposit_row p at t.next_deposit_id ∷ t.deposits;
          next_deposit_id = suc t.next_deposit_id;
        };
      },
    )

-- `InsertDepositTx`: 0 if the deposit was there already
unfoldable pub insert_deposit : CaptureDepositParams → Action ℕ
insert_deposit p = do at ← now; or_if_duplicate (exec (add_deposit p at)) 0

-- `UPDATE deposits SET … WHERE …`, with the number of rows affected
abbrev pub update_deposits : (Deposit → Bool) → (Deposit → Deposit) → Db → Result (ℕ × Db)
update_deposits test change db =
    let t = db.exchange in
    ok (
      count_where test t.deposits,
      record db { exchange = record t { deposits = update_where test change t.deposits } },
    )

abbrev pub is_creditable : ℕ → Deposit → Bool
is_creditable id d =
    d.id == id
    && (deposit_tag d.status == deposit_tag DepositStatus.pending
        || deposit_tag d.status == deposit_tag DepositStatus.orphaned)

abbrev pub as_credited : ℕ → Deposit → Deposit
as_credited at d = record d { status = DepositStatus.credited; credited_at = some at }

-- `MarkDepositCreditedTx`: the look-up after an update of no row changes no result
unfoldable pub mark_deposit_credited : ℕ → Action (Unit {0})
mark_deposit_credited id = do
  at ← now
  n ← exec (update_deposits (is_creditable id) (as_credited at))
  choose (n == 0)
      (ignore (query (λ db. first_row (find_first (λ d. d.id == id) db.exchange.deposits))))
      (pure tt)

abbrev pub is_orphaned : ℕ → Deposit → Bool
is_orphaned id d = d.id == id && deposit_tag d.status == deposit_tag DepositStatus.orphaned

abbrev pub as_pending : ℕ → Deposit → Deposit
as_pending block d = record d {
  status = DepositStatus.pending;
  block_number = block;
  credited_at = none;
}

-- `resetDepositForRecreditTx`
unfoldable pub reset_deposit_for_recredit : ℕ → ℕ → Action (Unit {0})
reset_deposit_for_recredit id block =
    exec (update_deposits (is_orphaned id) (as_pending block)) >> pure tt

abbrev pub same_ref : Option RefType → RefType → Bool
same_ref none r = Bool.false
same_ref (some q) r = ref_tag q == ref_tag r

abbrev pub same_id : Option ℕ → ℕ → Bool
same_id none id = Bool.false
same_id (some j) id = j == id

-- the `WHERE` of `hasLedgerEntryTx`, which names the reference type 'deposit' whatever is asked
abbrev pub is_deposit_entry : ℕ → EntryType → LedgerEntry → Bool
is_deposit_entry id type e =
    same_ref e.ref_type RefType.deposit
    && same_id e.ref_id id
    && entry_tag e.entry_type == entry_tag type

-- `hasLedgerEntryTx`
unfoldable pub has_ledger_entry : ℕ → EntryType → Action Bool
has_ledger_entry id type = query (λ db. ok (any (is_deposit_entry id type) db.exchange.entries))

-- `GetDepositByKey`, `GetDepositByKeyTx`: the row lock of the second is the transaction's
unfoldable pub get_deposit_by_key : Text → ℕ → Action Deposit
get_deposit_by_key tx_hash log_index = query (λ db.
    first_row (find_first (has_deposit_key (to_lower tx_hash) log_index) db.exchange.deposits))

-- `ListDeposits`: every user's if `user` is empty
unfoldable pub list_deposits : Text → ℕ → Action (List Deposit)
unfolding clamp_limit is_empty
list_deposits user limit = query (λ db. ok (
    take (clamp_limit limit)
      (select (λ d. is_empty user || text_eq d.user_id user) db.exchange.deposits)))

abbrev pub is_reorged : ℕ → Deposit → Bool
is_reorged from d =
    leb from d.block_number
    && (deposit_tag d.status == deposit_tag DepositStatus.pending
        || deposit_tag d.status == deposit_tag DepositStatus.credited)

abbrev pub as_orphaned : Deposit → Deposit
as_orphaned d = record d { status = DepositStatus.orphaned }

-- `OrphanDepositsFromBlockTx`: the rows as they were, and the update
unfoldable pub orphan_deposits_from_block : ℕ → Action (List Deposit)
orphan_deposits_from_block from = do
  found ← query (λ db. ok (select (is_reorged from) db.exchange.deposits))
  exec (update_deposits (is_reorged from) as_orphaned)
  pure found
