-- ===== src/Webhook/Outbox/Deposits.antt =====
-- The callbacks of a credited deposit: they leave the books alone, and all merchants of a payer share
-- one idempotency key.
use gin_demo.Prelude.{
  some, ℕ, ◌≡◌, refl, Bool, true, false, List, [], ◌∷◌, any, Bool-cases, inl, inr,
}
use gin_demo.Prelude.Text.{Text, text_eq_refl}
use gin_demo.Sql.Rules.{
  From, From-pure, From-call, From-insert, From-query-then, From-now-then, From-choose, From-then,
  From-weaken,
}
use gin_demo.Schema.{Db}
use gin_demo.Exchange.Types.{Deposit}
use gin_demo.Exchange.Types.{CaptureDepositParams}
use gin_demo.Exchange.Ledger.Audit.{IsAudited}
use gin_demo.Exchange.Deposit.{capture_and_credit}
use gin_demo.Exchange.Deposit.Audit.{
  LeavesExchange, IsCreditedOnce, capture_and_credit-IsAudited, capture_and_credit-IsCreditedOnce,
}
use gin_demo.Webhook.Types.{Binding, EventType, Payload}
use gin_demo.Webhook.Merchants.{bindings_of}
use gin_demo.Webhook.Outbox.{
  outbox_row, has_key, insert_outbox, deposit_key, deposit_event, enqueue_each, enqueue_deposit,
}

-- A row of the outbox has the key.
abbrev pub KeyTaken : Text → Bool → Db → Type 0
KeyTaken key b d = any (has_key key) d.webhook.outbox ≡ b

insert-taken :
    (merchant : Text) (event : EventType) (key : Text) (payload : Payload) (d : Db)
    → KeyTaken key true d
    → From d (insert_outbox merchant event key payload) (λ _ d'. d' ≡ d)
unfolding insert_outbox
insert-taken merchant event key payload d taken =
    From-now-then λ at. From-insert _ false (λ _. refl) (λ a d' e. cc (rw taken at e))

-- The outbox has one row more, for the merchant.
abbrev pub Enqueued : Text → EventType → Text → Payload → Db → Db → Type 0
Enqueued merchant event key payload d d' =
    (at : ℕ) × (d'.webhook.outbox
      ≡ outbox_row merchant event key payload at d.webhook.next_outbox_id ∷ d.webhook.outbox)

pub insert-Enqueued :
    (merchant : Text) (event : EventType) (key : Text) (payload : Payload) (d : Db)
    → KeyTaken key false d
    → From d
        (insert_outbox merchant event key payload)
        (λ _ d'. Enqueued merchant event key payload d d')
unfolding insert_outbox
insert-Enqueued merchant event key payload d free =
    From-now-then λ at.
      From-insert _ false (λ e. cc (rw free at e)) (λ a d' e. (at, let f = rw free at e in cc))

pub insert-keeps :
    (merchant : Text) (event : EventType) (key : Text) (payload : Payload) (d : Db)
    → From d (insert_outbox merchant event key payload) (λ _ d'. d'.exchange ≡ d.exchange)
unfolding insert_outbox
insert-keeps merchant event key payload d = From-now-then λ at.
    From-insert _ false (λ e. refl)
      (λ a d' e. elim (Bool-cases (any (has_key key) d.webhook.outbox)) [
        | inl taken ↦ cc (rw taken at e)
        | inr free ↦ let f = rw free at e in cc
      ])

each-keeps :
    (dep : Deposit) (at : ℕ) (bs : List Binding) (d : Db)
    → From d (enqueue_each dep at bs) (λ _ d'. d'.exchange ≡ d.exchange)
unfolding enqueue_each
each-keeps dep at [] d = From-pure tt refl
each-keeps dep at (b ∷ rest) d =
    From-call (insert-keeps _ _ _ _ d)
      λ _ d1 e. From-weaken (each-keeps dep at rest d1) (λ _ d2 e2. cc)

-- Enqueueing the callbacks of a deposit changes no table of the exchange.
pub enqueue_deposit-LeavesExchange : (enabled : Bool) → LeavesExchange (enqueue_deposit enabled)
unfolding enqueue_deposit
enqueue_deposit-LeavesExchange enabled base dep d =
    From-choose
      (λ _. From-query-then _ λ bindings e. From-now-then λ at. each-keeps dep at bindings d)
      (λ _. From-pure tt refl)

each-taken :
    (dep : Deposit) (at : ℕ) (bs : List Binding) (d : Db)
    → KeyTaken (deposit_key dep.id) true d
    → From d (enqueue_each dep at bs) (λ _ d'. d' ≡ d)
unfolding enqueue_each
each-taken dep at [] d taken = From-pure tt refl
each-taken dep at (b ∷ rest) d taken =
    From-call {R = λ _ d'. d' ≡ d} (insert-taken _ _ _ _ d taken)
      λ _ d1 e. rw e (each-taken dep at rest d taken)

-- A deposit whose callback is in the outbox is enqueued no second time: nothing changes.
pub enqueue_deposit-again :
    (enabled : Bool) (base : Db) (dep : Deposit) (d : Db)
    → KeyTaken (deposit_key dep.id) true d
    → From d (enqueue_deposit enabled base dep) (λ _ d'. d' ≡ d)
unfolding enqueue_deposit
enqueue_deposit-again enabled base dep d taken =
    From-choose
      (λ _. From-query-then _ λ bindings e. From-now-then λ at. each-taken dep at bindings d taken)
      (λ _. From-pure tt refl)

-- The outbox has one row more, the callback of the deposit to the merchant of the binding.
abbrev pub Called : Deposit → Binding → Db → Db → Type 0
Called dep b d d' =
    (time : ℕ) × Enqueued b.merchant_id EventType.deposit_confirmed (deposit_key dep.id)
      (deposit_event dep time b) d d'

Enqueued-KeyTaken :
    (merchant : Text) (event : EventType) (key : Text) (payload : Payload) (d d' : Db)
    → Enqueued merchant event key payload d d'
    → KeyTaken key true d'
Enqueued-KeyTaken merchant event key payload d d' (at, e) = rw (e, text_eq_refl key) refl

each-Called :
    (dep : Deposit) (at : ℕ) (b : Binding) (rest : List Binding) (d : Db)
    → KeyTaken (deposit_key dep.id) false d
    → From d (enqueue_each dep at (b ∷ rest)) (λ _ d'. Called dep b d d')
unfolding enqueue_each
each-Called dep at b rest d free =
    From-call (insert-Enqueued _ _ (deposit_key dep.id) _ d free) λ _ d1 r.
      From-weaken (each-taken dep at rest d1 (Enqueued-KeyTaken _ _ _ _ d d1 r))
        (λ _ d2 e. rw e (at, r))

-- Of all the merchants that a payer is bound to, only the first one is called back for a deposit:
-- when the callbacks of a new deposit are enqueued, the outbox gets one row, that merchant's.
pub enqueue_deposit-Called :
    (base : Db) (dep : Deposit) (b : Binding) (rest : List Binding) (d : Db)
    → bindings_of dep.user_id base ≡ b ∷ rest
    → KeyTaken (deposit_key dep.id) false d
    → From d (enqueue_deposit true base dep) (λ _ d'. Called dep b d d')
unfolding enqueue_deposit
enqueue_deposit-Called base dep b rest d bound free = From-then _ _ (
    From-query-then _ λ bindings e.
      From-now-then
        λ at. let found : bindings ≡ b ∷ rest = cc in rw found (each-Called dep at b rest d free))

-- With the webhook as its notifier, capturing a deposit keeps the balances equal to their journal
-- sums, and no deposit credited twice, if they were so before.
pub capture_and_credit-enqueue_deposit :
    (enabled : Bool) (base : Db) (p : CaptureDepositParams) (d : Db)
    → IsAudited d
    → IsCreditedOnce d
    → From d (capture_and_credit (some (enqueue_deposit enabled)) base p) (λ _ d'. IsAudited d')
      × From d
          (capture_and_credit (some (enqueue_deposit enabled)) base p)
          (λ _ d'. IsCreditedOnce d')
capture_and_credit-enqueue_deposit enabled base p d audited once =
    let leaves = enqueue_deposit-LeavesExchange enabled in
    (
      capture_and_credit-IsAudited (some (enqueue_deposit enabled)) base p d leaves audited,
      capture_and_credit-IsCreditedOnce (some (enqueue_deposit enabled)) base p d leaves once,
    )
