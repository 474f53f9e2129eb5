-- ===== src/Tx/Outbox.antt =====
-- internal/tx/store.go: status transitions and the outbox that reports them.
pub mod Transition
use gin_demo.Prelude.{
  ℕ, suc, ltb, leb, ◌+◌, ◌*◌, min, Bool, true, false, not, ◌&&◌, Option, none, some, List, [], ◌∷◌,
  ◌==◌, if◌then◌else◌, select, take, update_where, map,
}
use mathlib.Core.List.{reverse}
use gin_demo.Prelude.Text.{Text, text_eq, to_lower, is_empty, codes}
use gin_demo.Sql.{Result, ok, pure, ◌>>=◌, ◌>>◌, now, exec, query, choose, in_tx}
use gin_demo.Schema.{Db, Action}
use gin_demo.Tx.Types.{Row, Status, OutboxItem, OutboxExtra, OutboxStatus, status_tag, outbox_tag}
use gin_demo.Tx.Store.{null_str, change_rows, get_by_hash, is_status}

abbrev pub outbox_item : Text → Option Text → Status → Status → OutboxExtra → ℕ → ℕ → OutboxItem
outbox_item hash biz_id old new extra at id = record {
  id = id;
  tx_hash = to_lower hash;
  biz_id = biz_id;
  old_status = old;
  new_status = new;
  payload = extra;
  last_error = none;
  status = OutboxStatus.pending;
  retry_count = 0;
  next_retry_at = at;
  created_at = at;
  updated_at = at;
}

abbrev pub add_outbox : (ℕ → OutboxItem) → Db → Db
add_outbox item db =
    let t = db.tracker in
    record db {
      tracker = record t {
        outbox = item t.next_outbox_id ∷ t.outbox;
        next_outbox_id = suc t.next_outbox_id;
      };
    }

-- `insertOutbox`: a stored business id is never empty, so it is passed on as it is
unfoldable pub insert_outbox :
    Text → Option Text → Status → Status → OutboxExtra → Action (Unit {0})
insert_outbox hash biz_id old new extra = do
  at ← now
  exec (λ db. ok (tt, add_outbox (outbox_item hash biz_id old new extra at) db))

-- What the tracker has seen of a transaction.
pub record Sighting : Type 0 where
  pub block_number : ℕ
  pub confirmations : ℕ
  pub gas_used : ℕ
  pub message : Text

abbrev positive : ℕ → Option ℕ
positive n = if ltb 0 n then some n else none

abbrev pub moved : Status → Sighting → ℕ → Row → Row
moved status seen at r = record r {
  status = status;
  block_number = seen.block_number;
  gas_used = positive seen.gas_used;
  confirmations = seen.confirmations;
  error_message = null_str seen.message;
  updated_at = at;
}

-- `updateFields`
unfoldable pub update_fields : Text → Status → Sighting → Action (Unit {0})
update_fields hash status seen = do
  at ← now
  exec (change_rows (λ r. text_eq r.tx_hash (to_lower hash)) (moved status seen at))

-- `TransitionStatus`
unfoldable pub transition_status : Text → Status → Sighting → Action (Unit {0})
unfolding is_empty update_fields insert_outbox get_by_hash
transition_status hash status seen = do
  old ← get_by_hash hash
  choose (is_status status old && is_empty seen.message) (update_fields hash status seen) (
      update_fields hash status seen
      >> choose (is_status status old) (pure tt) (
          insert_outbox hash old.biz_id old.status status
            (OutboxExtra.transition seen.block_number seen.confirmations seen.message)))

abbrev replace_row : Text → ℕ → Row → Row
replace_row winner at r = record r {
  status = Status.replaced;
  replaced_by_hash = some winner;
  updated_at = at;
}

-- The loop over the transactions that lost the nonce.
unfoldable pub replace_all : Text → ℕ → List Row → Action (Unit {0})
unfolding insert_outbox
replace_all winner at [] = pure tt
replace_all winner at (p ∷ rest) = do
  exec (change_rows (λ r. text_eq r.tx_hash p.tx_hash) (replace_row winner at))
  insert_outbox p.tx_hash p.biz_id p.status Status.replaced (OutboxExtra.replaced_by winner)
  replace_all winner at rest

abbrev pub is_sibling : Text → ℕ → Text → Row → Bool
is_sibling from nonce winner r =
    text_eq r.from_addr from
    && r.nonce == nonce
    && not (text_eq r.tx_hash winner)
    && is_status Status.pending r

-- `MarkReplacedSiblings`
unfoldable pub mark_replaced_siblings : Text → ℕ → Text → Action (Unit {0})
unfolding replace_all
mark_replaced_siblings from nonce winner = do
  at ← now
  siblings ←
      query (λ db. ok (select (is_sibling (to_lower from) nonce (to_lower winner)) db.tracker.rows))
  replace_all (to_lower winner) at siblings

abbrev pub is_due : ℕ → OutboxItem → Bool
is_due at i = outbox_tag i.status == outbox_tag OutboxStatus.pending && leb i.next_retry_at at

abbrev pub change_outbox :
    (OutboxItem → Bool) → (OutboxItem → OutboxItem) → Db → Result (Unit {0} × Db)
change_outbox test change db =
    let t = db.tracker in
    ok (tt, record db { tracker = record t { outbox = update_where test change t.outbox } })

unfoldable pub take_all : ℕ → List OutboxItem → Action (Unit {0})
take_all at [] = pure tt
take_all at (i ∷ rest) = do
  exec (
      change_outbox (λ x. x.id == i.id)
        (λ x. record x { status = OutboxStatus.processing; updated_at = at }))
  take_all at rest

-- `ClaimOutboxBatch`: the ids grow, so the oldest items are the last ones of the table
unfoldable pub claim_outbox_tx : ℕ → Action (List OutboxItem)
unfolding take_all
claim_outbox_tx limit = do
  at ← now
  items ← query (λ db. ok (take limit (reverse (select (is_due at) db.tracker.outbox))))
  take_all at items
  pure items

unfoldable pub claim_outbox_batch : ℕ → Action (List OutboxItem)
unfolding claim_outbox_tx
claim_outbox_batch limit = in_tx (λ base. claim_outbox_tx limit)

-- `MarkOutboxDone`
unfoldable pub mark_outbox_done : ℕ → Action (Unit {0})
mark_outbox_done id = do
  at ← now
  exec (
      change_outbox (λ x. x.id == id)
        (λ x. record x { status = OutboxStatus.done; updated_at = at }))

-- `MarkOutboxRetry`: times are in milliseconds; the error is merged into the payload
unfoldable pub mark_outbox_retry : ℕ → ℕ → Text → Action (Unit {0})
mark_outbox_retry id retries message = do
  at ← now
  exec (
      change_outbox (λ x. x.id == id)
        (λ x. record x {
          status = OutboxStatus.pending;
          retry_count = suc retries;
          next_retry_at = at + min (suc retries) 10 * 1000;
          last_error = some message;
          updated_at = at;
        }))
