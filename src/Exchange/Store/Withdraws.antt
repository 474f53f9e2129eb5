-- ===== src/Exchange/Store/Withdraws.antt =====
-- internal/exchange/store.go: the statements on withdrawal requests.
use gin_demo.Prelude.{
  ℕ, suc, ltb, Bool, true, false, ◌&&◌, ◌||◌, Option, none, some, List, [], ◌∷◌, ◌==◌,
  if◌then◌else◌, find_first, select, take, update_where, count_where, any, not, is_some,
}
use gin_demo.Prelude.Text.{Text, text_eq, to_lower, is_empty}
use gin_demo.Sql.{
  Result, ok, err, duplicate, invalid_withdraw_state, pure, fail, ◌>>=◌, now, exec, query,
  first_row, choose,
}
use gin_demo.Schema.{Db, Action}
use gin_demo.Exchange.Types.{WithdrawRequest, WithdrawStatus, CreateWithdrawParams, withdraw_tag}
use gin_demo.Exchange.Ledger.{norm_token}

abbrev pub same_text : Option Text → Text → Bool
same_text none s = false
same_text (some t) s = text_eq t s

-- `GetWithdraw`
unfoldable pub find_withdraw : ℕ → Db → Result WithdrawRequest
find_withdraw id db = first_row (find_first (λ w. w.id == id) db.exchange.withdraws)

unfoldable pub get_withdraw : ℕ → Action WithdrawRequest
get_withdraw id = query (find_withdraw id)

-- `GetWithdrawByIdempotency`, `GetWithdrawByIdempotencyTx`
unfoldable pub get_withdraw_by_idempotency : Text → Action WithdrawRequest
get_withdraw_by_idempotency key =
    query
      (λ db. first_row (find_first (λ w. same_text w.idempotency_key key) db.exchange.withdraws))

-- `GetWithdrawByTxHash`
unfoldable pub find_by_tx_hash : Text → Db → Result WithdrawRequest
find_by_tx_hash tx_hash db =
    first_row (find_first (λ w. same_text w.tx_hash (to_lower tx_hash)) db.exchange.withdraws)

unfoldable pub get_withdraw_by_tx_hash : Text → Action WithdrawRequest
get_withdraw_by_tx_hash tx_hash = query (find_by_tx_hash tx_hash)

-- an empty key is NULL, which a unique index lets stand more than once
abbrev pub key_or_null : Text → Option Text
key_or_null [] = none
key_or_null (c ∷ rest) = some (c ∷ rest)

abbrev pub withdraw_row : CreateWithdrawParams → WithdrawStatus → ℕ → ℕ → WithdrawRequest
withdraw_row p status at id = record {
  id = id;
  user_id = p.user_id;
  token_address = norm_token p.token_address;
  to_address = to_lower p.to_address;
  amount_wei = p.amount_wei;
  status = status;
  from_wallet = none;
  tx_hash = none;
  reviewer = none;
  reviewed_at = none;
  reject_reason = none;
  idempotency_key = key_or_null p.idempotency_key;
  created_at = at;
  updated_at = at;
}

abbrev pub key_taken : Option Text → List WithdrawRequest → Bool
key_taken none rows = false
key_taken (some key) rows = any (λ w. same_text w.idempotency_key key) rows

-- `INSERT INTO withdraw_requests` under the unique key (chain_id, idempotency_key), with its
-- `LastInsertId`
unfoldable pub add_withdraw :
    CreateWithdrawParams → WithdrawStatus → ℕ → Db → Result (Option ℕ × Db)
add_withdraw p status at db =
    let t = db.exchange in
    if key_taken (key_or_null p.idempotency_key) t.withdraws
    then err duplicate
    else ok (
      some t.next_withdraw_id,
      record db {
        exchange = record t {
          withdraws = withdraw_row p status at t.next_withdraw_id ∷ t.withdraws;
          next_withdraw_id = suc t.next_withdraw_id;
        };
      },
    )

-- `ListWithdraws`: an empty user or no status leaves that test out
abbrev has_status : Option WithdrawStatus → WithdrawRequest → Bool
has_status none w = true
has_status (some s) w = withdraw_tag w.status == withdraw_tag s

unfoldable pub list_withdraws : Text → Option WithdrawStatus → ℕ → Action (List WithdrawRequest)
unfolding is_empty
list_withdraws user status limit = query (λ db. ok (
    take (if limit == 0 || ltb 500 limit then 100 else limit) (
      select (λ w. (is_empty user || text_eq w.user_id user) && has_status status w)
        db.exchange.withdraws)))

-- `fields map[string]any` is the change of the other columns.
abbrev pub update_withdraws :
    (WithdrawRequest → Bool) → (WithdrawRequest → WithdrawRequest) → Db → Result (ℕ × Db)
update_withdraws test change db =
    let t = db.exchange in
    ok (
      count_where test t.withdraws,
      record db { exchange = record t { withdraws = update_where test change t.withdraws } },
    )

abbrev pub is_expected : ℕ → Option WithdrawStatus → WithdrawRequest → Bool
is_expected id expect w = w.id == id && has_status expect w

abbrev pub moved_to :
    WithdrawStatus → ℕ → (WithdrawRequest → WithdrawRequest) → WithdrawRequest → WithdrawRequest
moved_to status at fields w = record (fields w) { status = status; updated_at = at }

-- `updateWithdrawStatusIf`: whether a row was hit
unfoldable pub update_withdraw_status_if :
    ℕ → Option WithdrawStatus → WithdrawStatus → (WithdrawRequest → WithdrawRequest) → Action Bool
update_withdraw_status_if id expect status fields = do
  at ← now
  n ← exec (update_withdraws (is_expected id expect) (moved_to status at fields))
  pure (ltb 0 n)

-- `updateWithdrawStatus`
unfoldable pub update_withdraw_status :
    ℕ
    → Option WithdrawStatus
    → WithdrawStatus
    → (WithdrawRequest → WithdrawRequest)
    → Action (Unit {0})
update_withdraw_status id expect status fields = do
  hit ← update_withdraw_status_if id expect status fields
  choose (is_some expect && not hit) (fail invalid_withdraw_state) (pure tt)
