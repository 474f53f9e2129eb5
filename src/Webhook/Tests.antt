-- ===== src/Webhook/Tests.antt =====
-- The webhook's theorems at one merchant with a payer, and one callback in the outbox.
use gin_demo.Prelude.{arith, length, ◌≤◌, ◌≡◌, refl, true, none, some, List, [], ◌∷◌, All}
use gin_demo.Prelude.Text.{Text, codes, text_eq}
use gin_demo.Sql.{World, pure, ok}
use gin_demo.Sql.Rules.{From}
use gin_demo.Schema.{Db, empty_db}
use gin_demo.Exchange.Types.{Deposit, DepositStatus}
use gin_demo.Exchange.Deposit.{capture_and_credit}
use gin_demo.Exchange.Deposit.Audit.{IsCreditedOnce}
use gin_demo.Exchange.Types.{CaptureDepositParams}
use gin_demo.Exchange.Ledger.Audit.{IsAudited, empty-IsAudited}
use gin_demo.Exchange.Wei.{decimal}
use gin_demo.Webhook.Types.{Merchant, Binding, OutboxRow, EventType, empty_tables}
use gin_demo.Webhook.Outbox.{
  outbox_row, enqueue_deposit, deposit_key, deposit_event, claim_outbox_batch,
}
use gin_demo.Webhook.Outbox.Deposits.{
  Called, KeyTaken, enqueue_deposit-Called, capture_and_credit-enqueue_deposit,
}
use gin_demo.Webhook.Outbox.Claiming.{IsProcessing}
use gin_demo.Webhook.Outbox.Oldest.{IsStored, IsWaiting, IsFair, claim_outbox_batch-oldest}
use gin_demo.Webhook.Engine.{Settings, fail_item}
use gin_demo.Webhook.Engine.Retry.{Failed, fail_item-Failed}
use gin_demo.Webhook.Payment.{CreatePaymentParams, create_payment, payment_of}
use gin_demo.Webhook.Payment.Books.{PaidOnce, create_payment-PaidOnce}

abbrev shop : Merchant
shop = record {
  merchant_id = codes "shop";
  name = [];
  webhook_url = codes "http://shop";
  secret = codes "s";
  ledger_user_id = codes "shop-ledger";
  enabled = true;
  created_at = 1;
  updated_at = 1;
}

abbrev binding : Text → Binding
binding merchant = record { merchant_id = merchant; payer_user_id = codes "alice"; created_at = 1 }

abbrev deposit : Deposit
deposit = record {
  id = 4;
  user_id = codes "alice";
  deposit_address = codes "0xd";
  token_address = [];
  amount_wei = codes "100";
  tx_hash = codes "0xt";
  log_index = 0;
  block_number = 5;
  status = DepositStatus.credited;
  credited_at = some 8;
  created_at = 1;
}

abbrev callback : OutboxRow
callback =
    outbox_row (codes "shop") EventType.deposit_confirmed (deposit_key 4)
      (deposit_event deposit 8 (binding (codes "shop"))) 8 1

-- Two merchants that are bound to the payer, and the rows of the outbox.
abbrev shop_db : List OutboxRow → Db
shop_db rows = record empty_db {
  webhook = record empty_tables {
    merchants = shop ∷ [];
    bindings = binding (codes "shop") ∷ binding (codes "bar") ∷ [];
    outbox = rows;
    next_outbox_id = 2;
  };
}

abbrev calm : Db → World Db
calm d = record { db = d; faults = []; clock = 9 }

enqueue_deposit-Called_example :
    From
      (shop_db [])
      (enqueue_deposit true (shop_db []) deposit)
      (λ _ d'. Called deposit (binding (codes "shop")) (shop_db []) d')
unfolding text_eq
enqueue_deposit-Called_example =
    enqueue_deposit-Called (shop_db []) deposit (binding (codes "shop"))
      (binding (codes "bar") ∷ []) (shop_db []) refl refl

taken : KeyTaken (deposit_key 4) true (shop_db (callback ∷ []))
unfolding text_eq decimal
taken = refl

abbrev settings : Settings
settings = record {
  max_retries = 1;
  mock_receive_url = [];
  post = λ url secret payload.
      pure record { http_status = 500; latency_ms = 3; response_body = []; error = none };
}

fail_item-Failed_example :
    All
      (λ (x : OutboxRow). x.id ≡ 1 → Failed settings 1 9 x)
      (fail_item settings callback (calm (shop_db (callback ∷ [])))).1.db.webhook.outbox
fail_item-Failed_example = fail_item-Failed settings callback (calm (shop_db (callback ∷ []))) refl

abbrev order : CreatePaymentParams
order = record {
  merchant_id = codes "shop";
  order_id = codes "7";
  payer_user_id = codes "alice";
  token_address = [];
  amount_wei = codes "0";
  idempotency_key = [];
}

create_payment-PaidOnce_example :
    From
      (shop_db [])
      (create_payment true order)
      (λ _ d'. PaidOnce (payment_of order) (shop_db []) d')
create_payment-PaidOnce_example = create_payment-PaidOnce true order (shop_db [])

-- a callback that is not due, one that waits, and an older one
abbrev later_callback : OutboxRow
later_callback = record callback { id = 3; next_retry_at = 20 }

abbrev second_callback : OutboxRow
second_callback = record callback { id = 2 }

abbrev crowded : World Db
crowded = calm (shop_db (later_callback ∷ second_callback ∷ callback ∷ []))

claim_outbox_batch-oldest_example :
    (batch : List OutboxRow) × ((claim_outbox_batch 1 crowded).0 ≡ ok batch)
    × (length batch ≤ 1)
    × All (λ (b : OutboxRow). IsStored crowded.db.webhook.outbox b × IsWaiting 9 b) batch
    × IsFair 9 1 crowded.db.webhook.outbox batch
    × All (λ (b : OutboxRow). IsProcessing b.id (claim_outbox_batch 1 crowded).1.db) batch
claim_outbox_batch-oldest_example =
    claim_outbox_batch-oldest 1 crowded refl
      ((omega arith, (omega arith, tt)), ((omega arith, tt), (tt, tt)))

abbrev capture : CaptureDepositParams
capture = record {
  user_id = codes "alice";
  deposit_address = codes "0xd";
  token_address = [];
  amount_wei = codes "100";
  tx_hash = codes "0xT";
  log_index = 0;
  block_number = 5;
}

capture_and_credit-enqueue_deposit_example :
    From
      (shop_db [])
      (capture_and_credit (some (enqueue_deposit true)) (shop_db []) capture)
      (λ _ d'. IsAudited d')
    × From
        (shop_db [])
        (capture_and_credit (some (enqueue_deposit true)) (shop_db []) capture)
        (λ _ d'. IsCreditedOnce d')
capture_and_credit-enqueue_deposit_example =
    capture_and_credit-enqueue_deposit true (shop_db []) capture (shop_db [])
      (empty-IsAudited (shop_db []) refl refl) (λ id. omega arith)
