-- ===== src/Webhook/Payment.antt =====
-- internal/webhook/service.go and store.go: payments from a user's balance to a merchant's.
pub mod Books
pub mod Repeats
use gin_demo.Prelude.{
  ℕ, suc, Bool, true, false, not, ◌&&◌, ◌||◌, Option, none, some, List, [], ◌∷◌, ◌++◌,
  if◌then◌else◌, any,
}
use gin_demo.Prelude.Text.{Text, text_eq, codes, trim_space, to_lower}
use gin_demo.Sql.{
  Error, Result, ok, err, duplicate_payment, not_enabled, merchant_disabled, ledger_user_required,
  pure, fail, ◌>>=◌, ◌>>◌, now, guard, exec, in_tx, attempt,
}
use gin_demo.Schema.{Db, Action}
use gin_demo.Exchange.Ledger.{norm_token, transfer_internal}
use gin_demo.Webhook.Types.{Payment, Merchant, EventType, Payload}
use gin_demo.Webhook.Merchants.{get_merchant, or_not_found}
use gin_demo.Webhook.Outbox.{insert_outbox, or_native}

-- `CreatePaymentParams`
pub record CreatePaymentParams : Type 0 where
  pub merchant_id : Text
  pub order_id : Text
  pub payer_user_id : Text
  pub token_address : Text
  pub amount_wei : Text
  pub idempotency_key : Text

-- the unique keys (chain_id, merchant_id, order_id) and (chain_id, idempotency_key)
abbrev pub is_same_payment : Payment → Payment → Bool
is_same_payment new old =
    (text_eq old.merchant_id new.merchant_id && text_eq old.order_id new.order_id)
    || text_eq old.idempotency_key new.idempotency_key

abbrev pub with_payment : Payment → ℕ → Db → Db
with_payment p at db =
    let t = db.webhook in
    record db {
      webhook = record t {
        payments = record p { id = t.next_payment_id; created_at = at } ∷ t.payments;
        next_payment_id = suc t.next_payment_id;
      };
    }

abbrev pub add_payment : Payment → ℕ → Db → Result (ℕ × Db)
add_payment p at db =
    if any (is_same_payment p) db.webhook.payments
    then err duplicate_payment
    else ok (db.webhook.next_payment_id, with_payment p at db)

-- `InsertPaymentTx`: the duplicate key is answered by an error of its own
unfoldable pub insert_payment : Payment → Action ℕ
insert_payment p = do at ← now; exec (add_payment p at)

abbrev pub payment_of : CreatePaymentParams → Payment
payment_of p =
    let order = trim_space p.order_id in
    record {
      id = 0;
      merchant_id = p.merchant_id;
      order_id = order;
      payer_user_id = trim_space p.payer_user_id;
      token_address = norm_token p.token_address;
      amount_wei = p.amount_wei;
      idempotency_key =
          if text_eq p.idempotency_key []
          then codes "pay:" ++ p.merchant_id ++ codes ":" ++ order
          else p.idempotency_key;
      created_at = 0;
    }

abbrev pub payment_event : Payment → ℕ → Payload
payment_event pay at = Payload.payment_payload record {
  merchant_id = pay.merchant_id;
  order_id = pay.order_id;
  payer_id = pay.payer_user_id;
  amount_wei = pay.amount_wei;
  token = or_native pay.token_address;
  paid_at = at;
}

-- the transaction of `CreatePayment`
unfoldable pub create_payment_tx : Merchant → Payment → Action ℕ
unfolding insert_payment transfer_internal insert_outbox
create_payment_tx m pay = do
  id ← insert_payment pay
  transfer_internal pay.payer_user_id m.ledger_user_id pay.token_address pay.amount_wei id
  at ← now
  insert_outbox pay.merchant_id EventType.payment_success pay.idempotency_key (payment_event pay at)
  pure id

abbrev pub answer : Payment → Result ℕ → Action Payment
answer pay (ok id) w = (ok (record pay { id = id; created_at = w.clock }), w)
answer pay (err duplicate_payment) w = (ok pay, w)
answer pay (err e) w = (err e, w)

-- `CreatePayment`: a duplicate is answered by the payment asked for, with no id
unfoldable pub create_payment : Bool → CreatePaymentParams → Action Payment
unfolding create_payment_tx text_eq
create_payment enabled p = do
  guard enabled not_enabled
  found ← attempt (get_merchant p.merchant_id)
  m ← or_not_found found
  guard m.enabled merchant_disabled
  guard (not (text_eq m.ledger_user_id [])) ledger_user_required
  paid ← attempt (in_tx (λ base. create_payment_tx m (payment_of p)))
  answer (payment_of p) paid
