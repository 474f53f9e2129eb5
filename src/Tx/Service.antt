-- ===== src/Tx/Service.antt =====
-- internal/tx/service.go: transactions are stored first and broadcast then, once for an idempotency
-- key. A function that returns a row together with an error is one that fails.
pub mod Once
pub mod Sending
use gin_demo.Prelude.{
  ℕ, Bool, true, false, not, ◌&&◌, ◌||◌, Option, none, some, if◌then◌else◌, List, [],
}
use gin_demo.Prelude.Int.{ℤ, is_nonpositive}
use gin_demo.Prelude.Text.{equal_fold, Text, text_eq, to_lower, is_empty}
use gin_demo.Sql.{
  Result, ok, err, remote, idempotency_conflict, invalid_value, not_pending, pure, fail, lift,
  ◌>>=◌, ◌>>◌, guard, ignore, attempt, optional, choose,
}
use gin_demo.Schema.{Db, Action}
use gin_demo.Exchange.Wei.{set_string, big_string}
use gin_demo.Tx.Types.{Row, Status, TxFormat, TxType, InsertParams}
use gin_demo.Tx.Nonce.{allocate, sync_from_chain}
use gin_demo.Tx.Store.{
  is_status, insert_submitting, mark_broadcast_pending, mark_broadcast_failed, get_by_hash,
  get_by_idempotency_key,
}
use gin_demo.Tx.Node.{Signed, SendResult, TxNode, Signer, send_transaction}

-- `SendMeta`
pub record SendMeta : Type 0 where
  pub biz_id : Text
  pub biz_type : Text
  pub idempotency_key : Text
  pub replaces_hash : Text

-- `SubmitRequest`
pub record SubmitRequest : Type 0 where
  pub signed_raw_tx : Text
  pub meta : SendMeta

abbrev or_empty : Option Text → Text
or_empty none = []
or_empty (some s) = s

abbrev printed : Option ℤ → Text
printed none = []
printed (some v) = big_string v

-- `insertFromSendResult`
unfoldable pub insert_from_send_result : SendResult → SendMeta → InsertParams
insert_from_send_result r meta = record {
  tx_hash = r.hash;
  from_addr = r.from;
  to_addr = r.to;
  token_addr = or_empty r.token;
  value_wei = big_string r.value;
  nonce = r.nonce;
  gas_limit = r.gas_limit;
  gas_price_wei = printed r.gas_price;
  max_fee_per_gas_wei = printed r.max_fee_per_gas;
  max_priority_fee_wei = printed r.max_priority_fee;
  tx_format = r.tx_format;
  tx_type = r.tx_type;
  biz_id = meta.biz_id;
  biz_type = meta.biz_type;
  idempotency_key = meta.idempotency_key;
  replaces_hash = meta.replaces_hash;
  signed_raw_hex = [];
  status = none;
}

-- after a broadcast: what is recorded, and the row that is answered
abbrev pub record_send : Text → Option Text → Action Row
record_send hash none = do mark_broadcast_pending hash; get_by_hash hash
record_send hash (some message) = do ignore (mark_broadcast_failed hash message); fail remote

unfoldable pub broadcast_again : TxNode → Row → Text → Action Row
broadcast_again node row raw = do
  tx ← lift (node.decode_raw raw)
  refused ← send_transaction node tx
  record_send row.tx_hash refused

abbrev pub is_unsent : Row → Bool
is_unsent row = is_status Status.submitting row || is_status Status.broadcast_failed row

abbrev pub raw_or_stored : Text → Row → Text
raw_or_stored raw row = if is_empty raw then or_empty row.signed_raw_hex else raw

-- `resumeBroadcast`
unfoldable pub resume_broadcast : TxNode → Row → Text → Action Row
unfolding broadcast_again
resume_broadcast node row raw =
    choose (is_unsent row && not (is_empty (raw_or_stored raw row)))
      (broadcast_again node row (raw_or_stored raw row)) (pure row)

abbrev sync_if : Bool → TxNode → Text → Action (Unit {0})
sync_if sync node from =
    choose sync (ignore (sync_from_chain from (lift (node.pending_nonce from)))) (pure tt)

-- the broadcast of a row that has just been stored
abbrev pub first_send : TxNode → InsertParams → Signed → Bool → Option Text → Action Row
first_send node p signed sync none = do mark_broadcast_pending p.tx_hash; get_by_hash p.tx_hash
first_send node p signed sync (some message) = do
  ignore (mark_broadcast_failed p.tx_hash message)
  sync_if sync node p.from_addr
  fail remote

-- an insert that has failed, with the row of the key if there is one
abbrev after_refusal : TxNode → InsertParams → Text → Action Row → Result Row → Action Row
after_refusal node p raw refused (err e) = refused
after_refusal node p raw refused (ok row) =
    choose (equal_fold row.tx_hash p.tx_hash) (resume_broadcast node row raw)
      (fail idempotency_conflict)

abbrev pub after_insert :
    TxNode → InsertParams → Signed → Text → Bool → Result (Unit {0}) → Action Row
after_insert node p signed raw sync (err e) = choose (is_empty p.idempotency_key) (fail e) (do
  holder ← attempt (get_by_idempotency_key p.idempotency_key)
  after_refusal node p raw (fail e) holder)
after_insert node p signed raw sync (ok done) = do
  refused ← send_transaction node signed
  first_send node p signed sync refused

abbrev pub persist : TxNode → InsertParams → Signed → Text → Bool → Option Row → Action Row
persist node p signed raw sync (some existing) = resume_broadcast node existing raw
persist node p signed raw sync none = do
  stored ← attempt (insert_submitting p)
  after_insert node p signed raw sync stored

abbrev pub raw_of : TxNode → Signed → Text → Result Text
raw_of node signed raw = if is_empty raw then node.raw_hex signed else ok raw

-- `persistAndBroadcast`
unfoldable pub persist_and_broadcast : TxNode → InsertParams → Signed → Text → Bool → Action Row
unfolding resume_broadcast
persist_and_broadcast node p signed signed_raw sync = do
  raw ← lift (raw_of node signed signed_raw)
  existing ← optional (get_by_hash p.tx_hash)
  persist node (record p { signed_raw_hex = raw }) signed raw sync existing

abbrev keyed : Text → Action (Option Row)
keyed key = choose (is_empty key) (pure none) (optional (get_by_idempotency_key key))

-- `SubmitRaw`, where no row has the key
unfoldable pub submit_new : TxNode → SubmitRequest → Action Row
unfolding persist_and_broadcast insert_from_send_result
submit_new node req = do
  tx ← lift (node.decode_raw req.signed_raw_tx)
  lift (node.validate_chain tx)
  result ← lift (node.send_result tx)
  persist_and_broadcast node (insert_from_send_result result req.meta) tx req.signed_raw_tx false

abbrev submit_found : TxNode → SubmitRequest → Option Row → Action Row
submit_found node req (some row) = resume_broadcast node row req.signed_raw_tx
submit_found node req none = submit_new node req

-- `SubmitRaw`
unfoldable pub submit_raw : TxNode → SubmitRequest → Action Row
unfolding submit_new
submit_raw node req = do found ← keyed req.meta.idempotency_key; submit_found node req found

abbrev resumed : TxNode → Option Row → Action Row → Action Row
resumed node none fresh = fresh
resumed node (some row) fresh = resume_broadcast node row (or_empty row.signed_raw_hex)

-- `checkIdempotency`, and the rest of a send when no row has the key
unfoldable pub unless_sent : TxNode → Text → Action Row → Action Row
unfolding resume_broadcast
unless_sent node key fresh = do found ← keyed key; resumed node found fresh

abbrev or_sync : TxNode → Text → Result Row → Action Row
or_sync node from (ok row) = pure row
or_sync node from (err e) = do
  ignore (sync_from_chain from (lift (node.pending_nonce from)))
  fail e

abbrev is_positive : Option ℤ → Bool
is_positive none = false
is_positive (some v) = not (is_nonpositive v)

abbrev send_signed_by : TxNode → Text → (ℕ → Result (Signed × SendResult)) → SendMeta → Action Row
send_signed_by node from sign meta = do
  nonce ← allocate from (lift (node.pending_nonce from))
  signed ← lift (sign nonce)
  sent ←
      attempt
        (persist_and_broadcast node (insert_from_send_result (signed.1) meta) (signed.0) [] true)
  or_sync node from sent

abbrev amount_or_zero : Option ℤ → ℤ
amount_or_zero none = ℤ.pos 0
amount_or_zero (some v) = v

-- `SendNative`
unfoldable pub send_native : TxNode → Signer → Text → Text → SendMeta → Action Row
unfolding unless_sent persist_and_broadcast insert_from_send_result
send_native node key to value_wei meta = unless_sent node meta.idempotency_key (do
  guard (is_positive (set_string value_wei)) invalid_value
  send_signed_by node key.address (key.sign_native to (amount_or_zero (set_string value_wei))) meta)

-- `SendERC20`
unfoldable pub send_erc20 : TxNode → Signer → Text → Text → Text → SendMeta → Action Row
unfolding unless_sent persist_and_broadcast insert_from_send_result
send_erc20 node key token to amount_wei meta = unless_sent node meta.idempotency_key (do
  guard (is_positive (set_string amount_wei)) invalid_value
  send_signed_by node key.address (key.sign_erc20 token to (amount_or_zero (set_string amount_wei)))
      meta)

abbrev is_eip1559 : TxFormat → Bool
is_eip1559 TxFormat.legacy = false
is_eip1559 TxFormat.eip1559 = true

abbrev sign_again : Signer → Row → TxType → Result (Signed × SendResult)
sign_again key old TxType.native =
    key.sign_speed_up_native old.to_addr (set_string old.value_wei) old.nonce old.gas_limit
      (is_eip1559 old.tx_format)
sign_again key old TxType.erc20 =
    key.sign_speed_up_erc20 (or_empty old.token_addr) old.to_addr (set_string old.value_wei)
      old.nonce old.gas_limit (is_eip1559 old.tx_format)

-- `SpeedUp`
unfoldable pub speed_up : TxNode → Signer → Text → Action Row
unfolding persist_and_broadcast insert_from_send_result
speed_up node key pending_hash = do
  old ← get_by_hash pending_hash
  guard (is_status Status.pending old) not_pending
  signed ← lift (sign_again key old old.tx_type)
  persist_and_broadcast node
      (insert_from_send_result (signed.1) (record {
        biz_id = or_empty old.biz_id;
        biz_type = or_empty old.biz_type;
        idempotency_key = [];
        replaces_hash = old.tx_hash;
      }))
      (signed.0) [] false
