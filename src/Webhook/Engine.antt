-- ===== src/Webhook/Engine.antt =====
-- internal/webhook/worker.go: the delivery of a claimed row. The HTTP call is a parameter.
pub mod Retry
use gin_demo.Prelude.{
  ℕ, suc, ◌+◌, ◌*◌, min, leb, ltb, Bool, true, false, not, ◌&&◌, ◌||◌, Option, none, some, List, [],
  ◌∷◌, ◌==◌, if◌then◌else◌, take, is_some,
}
use gin_demo.Prelude.Text.{Text, text_eq, codes}
use gin_demo.Sql.{Result, ok, err, pure, ◌>>=◌, ◌>>◌, now, exec, attempt, ignore, choose}
use gin_demo.Schema.{Db, Action}
use gin_demo.Webhook.Types.{Merchant, OutboxRow, Delivery, Payload}
use gin_demo.Webhook.Merchants.{get_merchant, has_prefix}
use gin_demo.Webhook.Outbox.{mark_outbox_done, mark_outbox_retry}

-- `DispatchResult`; `error` is the text of `Err`, none for nil
pub record DispatchResult : Type 0 where
  pub http_status : ℕ
  pub latency_ms : ℕ
  pub response_body : Text
  pub error : Option Text

-- `cfg.Webhook`, and the dispatcher's `Post` of a payload to a URL under a secret
pub record Settings : Type 0 where
  pub max_retries : ℕ
  pub mock_receive_url : Text
  pub post : Text → Text → Payload → Action DispatchResult

abbrev null_str : Text → Option Text
null_str [] = none
null_str (c ∷ s) = some (c ∷ s)

abbrev error_text : Option Text → Text
error_text none = []
error_text (some s) = s

abbrev delivery : ℕ → Text → ℕ → DispatchResult → ℕ → ℕ → Delivery
delivery outbox merchant attempt res at id = record {
  id = id;
  outbox_id = outbox;
  merchant_id = merchant;
  attempt = attempt;
  http_status = res.http_status;
  latency_ms = res.latency_ms;
  response_body = null_str (take 500 res.response_body);
  error_message = null_str (take 500 (error_text res.error));
  created_at = at;
}

-- `InsertDelivery`
unfoldable pub insert_delivery : ℕ → Text → ℕ → DispatchResult → Action (Unit {0})
insert_delivery outbox merchant attempt res = do
  at ← now
  exec (λ db.
      let t = db.webhook in
      ok (
        tt,
        record db {
          webhook = record t {
            deliveries = delivery outbox merchant attempt res at t.next_delivery_id ∷ t.deliveries;
            next_delivery_id = suc t.next_delivery_id;
          };
        },
      ))

-- `failItem`: the bound, the default of 8, and the delay in milliseconds
abbrev pub retry_limit : Settings → ℕ
retry_limit s = if s.max_retries == 0 then 8 else s.max_retries

abbrev pub backoff : ℕ → ℕ
backoff retry = min (retry * retry * 200) 30000

unfoldable pub fail_item : Settings → OutboxRow → Action (Unit {0})
fail_item s item = do
  at ← now
  let retry = suc item.retry_count
  ignore (mark_outbox_retry item.id retry (at + backoff retry) (leb (retry_limit s) retry))

abbrev is_mock : Text → Bool
is_mock url = has_prefix (codes "mock://") url || text_eq url []

abbrev target_url : Settings → Merchant → Text
target_url s m =
    if not (text_eq s.mock_receive_url []) && is_mock m.webhook_url
    then s.mock_receive_url
    else m.webhook_url

abbrev is_delivered : DispatchResult → Bool
is_delivered res = not (is_some res.error) && leb 200 res.http_status && ltb res.http_status 300

unfoldable pub deliver_to : Settings → OutboxRow → Merchant → Action (Unit {0})
unfolding fail_item insert_delivery text_eq
deliver_to s item m =
    choose m.enabled
      (do
        res ← s.post (target_url s m) m.secret item.payload
        ignore (insert_delivery item.id item.merchant_id (suc item.retry_count) res)
        choose (is_delivered res) (ignore (mark_outbox_done item.id)) (fail_item s item))
      (fail_item s item)

abbrev on_merchant : Settings → OutboxRow → Result Merchant → Action (Unit {0})
on_merchant s item (err _) = fail_item s item
on_merchant s item (ok m) = deliver_to s item m

-- `deliverOne`
unfoldable pub deliver_one : Settings → OutboxRow → Action (Unit {0})
unfolding deliver_to
deliver_one s item = do found ← attempt (get_merchant item.merchant_id); on_merchant s item found
