-- ===== src/Webhook/Payment/Books.antt =====
-- What a payment does to the balances and the stored payments.
use gin_demo.Prelude.{
  ℕ, ◌≡◌, refl, Bool, true, false, some, ◌&&◌, ◌||◌, Option-cases, find_first, ◌⊎◌, inl, inr, any,
  Bool-cases, ◌∙◌,
}
use gin_demo.Prelude.Int.{ℤ}
use gin_demo.Prelude.Text.{Text, text_eq}
use gin_demo.Sql.{
  Result, ok, err, duplicate_payment, World, attempt, in_tx, query, statement, first_row,
}
use gin_demo.Sql.Rules.{
  From, From-pure, From-fail, From-call, From-exec, From-now-then, From-lift-then, From-guard-then,
  From-weaken,
}
use gin_demo.Sql.Keeps.{
  Outcome, From-attempt_tx, Keeps, Keeps-query, Keeps-bind, Keeps-guard, Keeps-in_tx, Keeps-attempt,
  Keeps-pure, Keeps-fail,
}
use gin_demo.Schema.{Db}
use gin_demo.Exchange.Wei.{parse_wei}
use gin_demo.Exchange.Ledger.{norm_token, payment_debit_op, payment_credit_op, transfer_internal}
use gin_demo.Exchange.Ledger.Posting.{Posted, apply_ledger-Posted}
use gin_demo.Exchange.Ledger.Audit.{
  IsAudited, Posted-IsAudited, payment_debit_op-IsJournalled, payment_credit_op-IsJournalled,
}
use gin_demo.Webhook.Types.{Merchant, Payment, EventType}
use gin_demo.Webhook.Outbox.Deposits.{insert-keeps}
use gin_demo.Webhook.Merchants.{get_merchant, or_not_found}
use gin_demo.Webhook.Payment.Repeats.{payment_tx-repeats}
use gin_demo.Webhook.Payment.{
  CreatePaymentParams, is_same_payment, with_payment, add_payment, insert_payment, payment_of,
  payment_event, create_payment_tx, create_payment, answer,
}

-- The amount `v` has gone from the payer's balance to the merchant's, by one debit and one credit
-- that refer to the payment `id`.
abbrev pub Transferred : Text → Text → Text → Text → ℕ → Db → Db → Type 0
Transferred payer merchant token amount id d d' =
    (v : ℤ) × (d1 : Db) × (d2 : Db) × (parse_wei amount ≡ ok v)
    × Posted payer (norm_token token) (payment_debit_op id v) d d1
    × Posted merchant (norm_token token) (payment_credit_op id v) d1 d2
    × (d'.exchange ≡ d2.exchange)

transfer-Transferred :
    (payer merchant token amount : Text) (id : ℕ) (d : Db)
    → From d
        (transfer_internal payer merchant token amount id)
        (λ _ d'. Transferred payer merchant token amount id d d')
unfolding transfer_internal
transfer-Transferred payer merchant token amount id d = From-lift-then _ λ v read.
    From-call (apply_ledger-Posted payer token (payment_debit_op id v) d) λ _ d1 r1.
      From-weaken (apply_ledger-Posted merchant token (payment_credit_op id v) d1)
        (λ _ d2 r2. (v, d1, d2, read, r1, r2, refl))

unmoved :
    (payer merchant token amount : Text) (id : ℕ) (d d2 d3 : Db)
    → d3.exchange ≡ d2.exchange
    → Transferred payer merchant token amount id d d2
    → Transferred payer merchant token amount id d d3
unmoved payer merchant token amount id d d2 d3 local (v, a, b, read, debit, credit, same) =
    (v, a, b, read, debit, credit, local ∙ same)

-- A stored payment of the same order at the same merchant, or under the same key.
abbrev pub repeats : Payment → Payment → Bool
repeats pay old =
    (text_eq old.merchant_id pay.merchant_id && text_eq old.order_id pay.order_id)
    || text_eq old.idempotency_key pay.idempotency_key

-- No payment of the same order or key was stored, and the amount has been transferred.
abbrev pub Paid : Merchant → Payment → Db → Db → Type 0
Paid m pay d d' =
    (any (repeats pay) d.webhook.payments ≡ false)
    × (at : ℕ) × Transferred pay.payer_user_id m.ledger_user_id pay.token_address pay.amount_wei
        d.webhook.next_payment_id (with_payment pay at d) d'

stored :
    (pay : Payment) (at : ℕ) (d : Db) {id : ℕ} {d' : Db}
    → add_payment pay at d ≡ ok (id, d')
    → (any (is_same_payment pay) d.webhook.payments ≡ false)
      × (id ≡ d.webhook.next_payment_id)
      × (d' ≡ with_payment pay at d)
stored pay at d e = elim (Bool-cases (any (is_same_payment pay) d.webhook.payments)) [
  | inl taken ↦ cc (rw taken at e)
  | inr free ↦ let f = rw free at e in (free, cc, cc)
]

payment_tx-Paid :
    (m : Merchant) (pay : Payment) (d : Db)
    → From d (create_payment_tx m pay) (λ _ d'. Paid m pay d d')
unfolding create_payment_tx insert_payment
payment_tx-Paid m pay d =
    From-call
      {R = λ id d1.
        (any (is_same_payment pay) d.webhook.payments ≡ false)
        × (id ≡ d.webhook.next_payment_id)
        × ((at : ℕ) × (d1 ≡ with_payment pay at d))}
      (From-now-then λ at.
        From-exec _
          λ id d1 e. let (free, same, written) = stored pay at d e in (free, same, (at, written)))
      λ id d1 r.
        let (free, same, (at, written)) = r in
        rw (same, written)
          (From-call
            (transfer-Transferred pay.payer_user_id m.ledger_user_id pay.token_address
              pay.amount_wei d.webhook.next_payment_id (with_payment pay at d))
            λ _ d2 moved. From-now-then λ time.
              From-call
                (insert-keeps pay.merchant_id EventType.payment_success pay.idempotency_key
                  (payment_event pay time) d2)
                λ _ d3 local.
                  From-pure d.webhook.next_payment_id
                    (free, at, unmoved _ _ _ _ _ _ d2 d3 local moved))

-- the merchant that the payment names
abbrev pub IsMerchant : Text → Merchant → Db → Type 0
IsMerchant id m d = find_first (λ x. text_eq x.merchant_id id) d.webhook.merchants ≡ some m

-- A payment that is answered was a repetition and has changed nothing, or has been made to the
-- merchant that it names.
abbrev pub PaidOnce : Payment → Db → Db → Type 0
PaidOnce pay d d' =
    ((any (repeats pay) d.webhook.payments ≡ true) × (d' ≡ d))
    ⊎ ((m : Merchant) × IsMerchant pay.merchant_id m d × Paid m pay d d')

answered :
    (m : Merchant) (pay : Payment) (r : Result ℕ) (d d1 : Db)
    → IsMerchant pay.merchant_id m d
    → Outcome (λ _ d2. Paid m pay d d2) d r d1
    → (r ≡ err duplicate_payment → any (repeats pay) d.webhook.payments ≡ true)
    → From d1 (answer pay r) (λ _ d2. PaidOnce pay d d2)
answered m pay (ok id) d d1 named h again = record { at = λ w e. inr (m, named, rw e h) }
answered m pay (err duplicate_payment) d d1 named h again = record {
  at = λ w e. inl (again refl, e ∙ h);
}
answered m pay (err _) d d1 named h again = record { at = λ w e. tt }

payment_tx-Outcome :
    (m : Merchant) (pay : Payment) (d : Db)
    → From d (attempt (in_tx (λ base. create_payment_tx m pay))) (λ r d'.
      Outcome (λ _ d2. Paid m pay d d2) d r d'
      × (r ≡ err duplicate_payment → any (repeats pay) d.webhook.payments ≡ true))
unfolding attempt
payment_tx-Outcome m pay d = record {
  at = λ w e. (
    (From-attempt_tx (λ base. create_payment_tx m pay) (payment_tx-Paid m pay d)).at w e,
    λ refused. rw e at (payment_tx-repeats m pay w refused),
  );
}

found_row :
    (id : Text) (m : Merchant) (d0 d : Db)
    → d0 ≡ d
    → first_row (find_first (λ x. text_eq x.merchant_id id) d0.webhook.merchants) ≡ ok m
    → IsMerchant id m d
found_row id m d0 d e h =
    elim (Option-cases (find_first (λ x. text_eq x.merchant_id id) d.webhook.merchants)) [
      | inl missing ↦ cc (rw (e, missing) at h)
      | inr (found, there) ↦ let k = rw (e, there) at h in cc
    ]

found-merchant :
    (id : Text) (d : Db)
    → From d
        (attempt (get_merchant id))
        (λ r d'. (d' ≡ d) × ((m : Merchant) → r ≡ ok m → IsMerchant id m d))
unfolding get_merchant attempt query
found-merchant id d = record {
  at = λ w e. elim (Bool-cases (statement w.faults)) [
    | inl bad ↦ rw bad (e, λ m h. cc)
    | inr good ↦ rw good (e, λ m h. found_row id m w.db d e h)
  ];
}

merchant-known :
    (id : Text) (r : Result Merchant) (d : Db)
    → ((m : Merchant) → r ≡ ok m → IsMerchant id m d)
    → From d (or_not_found r) (λ m d'. (d' ≡ d) × IsMerchant id m d)
merchant-known id (ok m) d named = From-pure m (refl, named m refl)
merchant-known id (err _) d named = From-fail _

-- A payment that is answered without an error has moved the amount, which parses, exactly once from
-- the payer to the ledger account of the merchant that it names, under the payment's new id, and then
-- no payment of that merchant's order or of that key was stored before; or such a payment was stored,
-- and nothing has changed.
pub create_payment-PaidOnce :
    (enabled : Bool) (p : CreatePaymentParams) (d : Db)
    → From d (create_payment enabled p) (λ _ d'. PaidOnce (payment_of p) d d')
unfolding create_payment
create_payment-PaidOnce enabled p d = From-guard-then _ _ λ _.
    From-call (found-merchant p.merchant_id d) λ found d1 (e1, named). rw e1 (
      From-call (merchant-known p.merchant_id found d named) λ m d2 (e2, stored_there). rw e2 (
        From-guard-then _ _ λ _. From-guard-then _ _ λ _.
          From-call (payment_tx-Outcome m (payment_of p) d)
            λ r d3 (h, again). answered m (payment_of p) r d d3 stored_there h again))

Paid-IsAudited :
    (m : Merchant) (pay : Payment) (d d' : Db) → Paid m pay d d' → IsAudited d → IsAudited d'
Paid-IsAudited m pay d d' (free, at, (v, d1, d2, read, debit, credit, same)) audited = rw same (
    Posted-IsAudited m.ledger_user_id (norm_token pay.token_address) _
      (payment_credit_op-IsJournalled _ pay.amount_wei v read) credit
      (Posted-IsAudited pay.payer_user_id (norm_token pay.token_address) _
        (payment_debit_op-IsJournalled _ pay.amount_wei v read) debit audited))

Keeps-answer : (P : Db → Type 0) (pay : Payment) (r : Result ℕ) → Keeps P (answer pay r)
Keeps-answer P pay (ok id) = record { at = λ w p. p }
Keeps-answer P pay (err duplicate_payment) = record { at = λ w p. p }
Keeps-answer P pay (err _) = record { at = λ w p. p }

Keeps-found : (P : Db → Type 0) (r : Result Merchant) → Keeps P (or_not_found r)
Keeps-found P (ok m) = Keeps-pure m
Keeps-found P (err _) = Keeps-fail _

kept : (enabled : Bool) (p : CreatePaymentParams) → Keeps IsAudited (create_payment enabled p)
unfolding create_payment get_merchant
kept enabled p = Keeps-bind (Keeps-guard _ _) λ _.
    Keeps-bind (Keeps-attempt _ (Keeps-query _)) λ found.
      Keeps-bind (Keeps-found IsAudited found) λ m. Keeps-bind (Keeps-guard _ _) λ _.
        Keeps-bind (Keeps-guard _ _) λ _.
          Keeps-bind
            (Keeps-attempt _ (
              Keeps-in_tx _ λ d h.
                From-weaken (payment_tx-Paid m (payment_of p) d)
                  (λ _ d' paid. Paid-IsAudited m (payment_of p) d d' paid h)))
            (λ r. Keeps-answer IsAudited (payment_of p) r)

-- However a payment ends, committed, refused or rolled back by a failing statement, balances that
-- equal their journal's sums before do so afterwards.
pub create_payment-IsAudited :
    (enabled : Bool) (p : CreatePaymentParams) (w : World Db)
    → IsAudited w.db
    → IsAudited (create_payment enabled p w).1.db
create_payment-IsAudited enabled p w audited = (kept enabled p).at w audited
