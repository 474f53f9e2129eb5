-- ===== src/Tx/Store.antt =====
-- internal/tx/store.go: the statements on the tracker's table.
pub mod Terminal
pub mod Conflict
use gin_demo.Prelude.{
  ℕ, suc, ltb, leb, ◌+◌, ◌*◌, Bool, true, false, not, ◌&&◌, ◌||◌, Option, none, some, List, [], ◌∷◌,
  ◌==◌, if◌then◌else◌, find_first, select, take, update_where, any, sort_by,
}
use gin_demo.Prelude.Text.{Text, text_eq, to_lower, is_empty}
use gin_demo.Sql.{Result, ok, err, pure, ◌>>=◌, ◌>>◌, now, exec, query, first_row}
use gin_demo.Schema.{Db, Action}
use gin_demo.Tx.Types.{Row, Status, TxType, TxFormat, InsertParams, status_tag}

abbrev pub is_status : Status → Row → Bool
is_status s r = status_tag r.status == status_tag s

-- `nullStr`, `strings.ToLower` under an emptiness test
abbrev pub null_str : Text → Option Text
null_str [] = none
null_str (c ∷ s) = some (c ∷ s)

abbrev pub lower_or_null : Text → Option Text
lower_or_null [] = none
lower_or_null (c ∷ s) = some (to_lower (c ∷ s))

abbrev or_default : {A : Type 0} → Option A → A → A
or_default none a = a
or_default (some b) a = b

abbrev pub new_row : InsertParams → Status → ℕ → Row
new_row p status at = record {
  tx_hash = to_lower p.tx_hash;
  from_addr = to_lower p.from_addr;
  to_addr = to_lower p.to_addr;
  token_addr = lower_or_null p.token_addr;
  value_wei = p.value_wei;
  nonce = p.nonce;
  gas_limit = p.gas_limit;
  gas_price_wei = null_str p.gas_price_wei;
  max_fee_per_gas_wei = null_str p.max_fee_per_gas_wei;
  max_priority_fee_wei = null_str p.max_priority_fee_wei;
  tx_format = or_default p.tx_format TxFormat.legacy;
  tx_type = or_default p.tx_type TxType.native;
  status = status;
  block_number = 0;
  gas_used = none;
  confirmations = 0;
  error_message = none;
  biz_id = null_str p.biz_id;
  biz_type = null_str p.biz_type;
  idempotency_key = lower_or_null p.idempotency_key;
  replaces_hash = lower_or_null p.replaces_hash;
  replaced_by_hash = none;
  signed_raw_hex = null_str p.signed_raw_hex;
  broadcast_retry_count = 0;
  created_at = at;
  updated_at = at;
}

abbrev pub is_terminal : Status → Bool
is_terminal Status.confirmed = true
is_terminal Status.failed = true
is_terminal Status.dropped = true
is_terminal Status.replaced = true
is_terminal _ = false

abbrev pub same_key : Option Text → Option Text → Bool
same_key (some s) (some t) = text_eq s t
same_key _ _ = false

-- the primary key (chain_id, tx_hash) and the unique key (chain_id, idempotency_key)
abbrev pub clashes : Row → Row → Bool
clashes new old =
    text_eq old.tx_hash new.tx_hash || same_key old.idempotency_key new.idempotency_key

abbrev or_else : Option Text → Option Text → Option Text
or_else (some s) old = some s
or_else none old = old

-- `ON DUPLICATE KEY UPDATE`
abbrev pub merged : Row → Row → Row
merged new old = record old {
  status = if is_terminal old.status then old.status else new.status;
  signed_raw_hex = or_else new.signed_raw_hex old.signed_raw_hex;
  updated_at = new.updated_at;
}

-- Of several rows that clash, one is updated: the row of the primary key first.
abbrev pub upsert_row : Row → List Row → List Row
upsert_row new rows =
    if any (λ old. text_eq old.tx_hash new.tx_hash) rows
    then update_where (λ old. text_eq old.tx_hash new.tx_hash) (merged new) rows
    else if any (clashes new) rows
    then update_where (clashes new) (merged new) rows
    else new ∷ rows

abbrev pub set_rows : List Row → Db → Db
set_rows rows db = record db { tracker = record db.tracker { rows = rows } }

-- `insertRow`
unfoldable pub insert_row : InsertParams → Status → Action (Unit {0})
insert_row p status = do
  at ← now
  exec (λ db. ok (tt, set_rows (upsert_row (new_row p status at) db.tracker.rows) db))

abbrev pub first_status : InsertParams → Status
first_status p = or_default p.status Status.submitting

-- `InsertSubmitting`
unfoldable pub insert_submitting : InsertParams → Action (Unit {0})
unfolding insert_row
insert_submitting p = insert_row p (first_status p)

abbrev pub change_rows : (Row → Bool) → (Row → Row) → Db → Result (Unit {0} × Db)
change_rows test change db = ok (tt, set_rows (update_where test change db.tracker.rows) db)

abbrev pub unsent : Text → Row → Bool
unsent hash r =
    text_eq r.tx_hash (to_lower hash)
    && (is_status Status.submitting r || is_status Status.broadcast_failed r)

abbrev pub as_pending : ℕ → Row → Row
as_pending at r = record r { status = Status.pending; error_message = none; updated_at = at }

abbrev pub as_broadcast_failed : Text → ℕ → Row → Row
as_broadcast_failed message at r = record r {
  status = Status.broadcast_failed;
  error_message = null_str message;
  updated_at = at;
}

-- `MarkBroadcastPending`
unfoldable pub mark_broadcast_pending : Text → Action (Unit {0})
mark_broadcast_pending hash = do at ← now; exec (change_rows (unsent hash) (as_pending at))

-- `MarkBroadcastFailed`
unfoldable pub mark_broadcast_failed : Text → Text → Action (Unit {0})
mark_broadcast_failed hash message = do
  at ← now
  exec (change_rows (unsent hash) (as_broadcast_failed message at))

-- `IncrementBroadcastRetry`
unfoldable pub increment_broadcast_retry : Text → Action (Unit {0})
increment_broadcast_retry hash = do
  at ← now
  exec (
      change_rows (λ r. text_eq r.tx_hash (to_lower hash))
        (λ r. record r { broadcast_retry_count = suc r.broadcast_retry_count; updated_at = at }))

-- `GetByHash`
unfoldable pub get_by_hash : Text → Action Row
get_by_hash hash =
    query (λ db. first_row (find_first (λ r. text_eq r.tx_hash (to_lower hash)) db.tracker.rows))

-- `GetByIdempotencyKey`
unfoldable pub get_by_idempotency_key : Text → Action Row
get_by_idempotency_key key = query (λ db.
    first_row (find_first (λ r. same_key r.idempotency_key (some (to_lower key))) db.tracker.rows))

abbrev older : Row → Row → Bool
older a b = leb a.updated_at b.updated_at

-- `ListReconcileBatch`: times are in milliseconds
unfoldable pub list_reconcile_batch : ℕ → ℕ → ℕ → Action (List Row)
list_reconcile_batch grace_sec max_retries limit = do
  at ← now
  query (λ db. ok (
      take limit (
        sort_by older (
          select
            (λ r.
              (is_status Status.submitting r || is_status Status.broadcast_failed r)
              && ltb r.broadcast_retry_count max_retries
              && leb (r.updated_at + grace_sec * 1000) at)
            db.tracker.rows))))

-- `ListPending`
unfoldable pub list_pending : ℕ → Action (List Row)
list_pending limit =
    query
      (λ db. ok (take limit (sort_by older (select (is_status Status.pending) db.tracker.rows))))

abbrev pub is_trackable : Row → Bool
is_trackable r =
    is_status Status.pending r
    || is_status Status.submitting r
    || is_status Status.broadcast_failed r

-- `ListTrackable`
unfoldable pub list_trackable : ℕ → Action (List Row)
list_trackable limit =
    query (λ db. ok (take limit (sort_by older (select is_trackable db.tracker.rows))))

abbrev has_status : Option Status → Row → Bool
has_status none r = true
has_status (some s) r = is_status s r

-- `ListByFrom`: an empty address or no status leaves that test out
unfoldable pub list_by_from : Text → Option Status → ℕ → Action (List Row)
unfolding is_empty
list_by_from from status limit = query (λ db. ok (
    take limit (
      sort_by (λ a b. leb b.created_at a.created_at)
        (select (λ r. (is_empty from || text_eq r.from_addr (to_lower from)) && has_status status r)
          db.tracker.rows))))
