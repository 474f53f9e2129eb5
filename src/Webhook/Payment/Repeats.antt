-- ===== src/Webhook/Payment/Repeats.antt =====
-- Which payments are answered as duplicates.
use gin_demo.Prelude.{
  ℕ, ◌≡◌, refl, Bool, true, false, Bool-cases, inl, inr, Option, none, some, any,
}
use gin_demo.Prelude.Int.{ℤ, is_negative}
use gin_demo.Prelude.Text.{Text}
use gin_demo.Sql.{
  Result, ok, err, duplicate, duplicate_payment, insufficient_balance, World, pure, lift, ◌>>=◌,
  continue, guard, now, exec, query, write_back, or_if_duplicate, on_duplicate, statement, later,
  in_tx, end_tx,
}
use gin_demo.Schema.{Db, Action}
use gin_demo.Exchange.Wei.{parse_wei, set_string, checked_sign}
use gin_demo.Exchange.Ledger.{
  LedgerOp, transfer_internal, apply_ledger, apply_normalised, post_entry, write_account,
  write_entry,
}
use gin_demo.Webhook.Types.{Payment, Merchant, EventType, Payload}
use gin_demo.Webhook.Outbox.{insert_outbox, add_row, has_key}
use gin_demo.Webhook.Payment.{is_same_payment, add_payment, insert_payment, create_payment_tx}

-- `m` never fails as a duplicate payment.
pub record NeverRepeats {A : Type 0} (m : Action A) : Type 0 where
  pub at : (w : World Db) → (m w).0 ≡ err duplicate_payment → ⊥

module _ {A B : Type 0} where
  carried :
      (r : Result A × World Db) (f : A → Action B)
      → ((a : A) → NeverRepeats (f a))
      → (continue r.0 f r.1).0 ≡ err duplicate_payment
      → r.0 ≡ err duplicate_payment
  carried (ok a, w) f hf e = absurd ((hf a).at w e)
  carried (err x, w) f hf e = cc

  -- A sequence fails as a duplicate only in its first part, if the rest never does.
  failed_first :
      (m : Action A) (f : A → Action B) (w : World Db)
      → ((a : A) → NeverRepeats (f a))
      → ((m >>= f) w).0 ≡ err duplicate_payment
      → (m w).0 ≡ err duplicate_payment
  unfolding ◌>>=◌
  failed_first m f w hf e = carried (m w) f hf e

  Never-bind :
      {m : Action A} {f : A → Action B}
      → NeverRepeats m
      → ((a : A) → NeverRepeats (f a))
      → NeverRepeats (m >>= f)
  Never-bind {m} {f} hm hf = record { at = λ w e. hm.at w (failed_first m f w hf e) }

module _ {A : Type 0} where
  Never-pure : (a : A) → NeverRepeats {A = A} (pure a)
  unfolding pure
  Never-pure a = record { at = λ w e. cc }

  written :
      (r : Result (A × Db)) (w : World Db)
      → (r ≡ err duplicate_payment → ⊥)
      → (write_back r w).0 ≡ err duplicate_payment
      → ⊥
  written (ok (a, d)) w h e = cc
  written (err x) w h e = let same : x ≡ duplicate_payment = cc in h (rw same refl)

  Never-exec :
      (f : Db → Result (A × Db))
      → ((d : Db) → f d ≡ err duplicate_payment → ⊥)
      → NeverRepeats (exec f)
  unfolding exec
  Never-exec f h = record {
    at = λ w e. elim (Bool-cases (statement w.faults)) [
      | inl bad ↦ cc (rw bad at e)
      | inr good ↦ written (f w.db) (record w { faults = later w.faults }) (h w.db) (rw good at e)
    ];
  }

  Never-query :
      (f : Db → Result A) → ((d : Db) → f d ≡ err duplicate_payment → ⊥) → NeverRepeats (query f)
  unfolding query
  Never-query f h = record {
    at = λ w e. elim (Bool-cases (statement w.faults)) [
      | inl bad ↦ cc (rw bad at e)
      | inr good ↦ h w.db (rw good at e)
    ];
  }

  Never-lift : (r : Result A) → (r ≡ err duplicate_payment → ⊥) → NeverRepeats (lift r)
  unfolding lift
  Never-lift r h = record { at = λ w e. h e }

  absorbed :
      (a : A) (r : Result A × World Db)
      → (r.0 ≡ err duplicate_payment → ⊥)
      → (on_duplicate a r).0 ≡ err duplicate_payment
      → ⊥
  absorbed a (ok x, w) h e = cc
  absorbed a (err duplicate, w) h e = cc
  absorbed a (err x, w) h e = h e

  Never-insert : (m : Action A) (a : A) → NeverRepeats m → NeverRepeats (or_if_duplicate m a)
  unfolding or_if_duplicate
  Never-insert m a h = record { at = λ w e. absorbed a (m w) (h.at w) e }

Never-now : NeverRepeats now
unfolding now
Never-now = record { at = λ w e. cc }

Never-covered : (b : Bool) → NeverRepeats (guard b insufficient_balance)
unfolding guard
Never-covered true = record { at = λ w e. cc }
Never-covered false = record { at = λ w e. cc }

never_signed : (o : Option ℤ) → checked_sign o ≡ err duplicate_payment → ⊥
never_signed none e = cc
never_signed (some v) e = elim (Bool-cases (is_negative v)) [
  | inl below ↦ cc (rw below at e)
  | inr fine ↦ cc (rw fine at e)
]

Never-parse : (s : Text) → NeverRepeats (lift (parse_wei s))
unfolding parse_wei
Never-parse s = Never-lift _ (never_signed (set_string s))

Never-apply : (user token : Text) (op : LedgerOp) → NeverRepeats (apply_ledger user token op)
unfolding apply_ledger apply_normalised post_entry write_account write_entry
Never-apply user token op = Never-bind Never-now λ at.
    Never-bind (Never-query _ λ d e. cc) λ account. Never-bind (Never-parse _) λ avail.
      Never-bind (Never-parse _) λ frozen. Never-bind (Never-covered _) λ _.
        Never-bind (Never-covered _)
          λ _. Never-bind (Never-exec _ λ d e. cc) λ _. Never-exec _ λ d e. cc

Never-transfer :
    (payer merchant token amount : Text) (id : ℕ)
    → NeverRepeats (transfer_internal payer merchant token amount id)
unfolding transfer_internal
Never-transfer payer merchant token amount id =
    Never-bind (Never-parse amount)
      λ v. Never-bind (Never-apply payer token _) λ _. Never-apply merchant token _

never_added :
    (merchant : Text) (event : EventType) (key : Text) (payload : Payload) (at : ℕ) (d : Db)
    → add_row merchant event key payload at d ≡ err duplicate_payment
    → ⊥
never_added merchant event key payload at d e =
    elim (Bool-cases (any (has_key key) d.webhook.outbox)) [
      | inl taken ↦ cc (rw taken at e)
      | inr free ↦ cc (rw free at e)
    ]

Never-outbox :
    (merchant : Text) (event : EventType) (key : Text) (payload : Payload)
    → NeverRepeats (insert_outbox merchant event key payload)
unfolding insert_outbox
Never-outbox merchant event key payload =
    Never-bind Never-now
      λ at. Never-insert _ false (Never-exec _ (never_added merchant event key payload at))

add-repeats :
    (pay : Payment) (at : ℕ) (d : Db)
    → add_payment pay at d ≡ err duplicate_payment
    → any (is_same_payment pay) d.webhook.payments ≡ true
add-repeats pay at d e = elim (Bool-cases (any (is_same_payment pay) d.webhook.payments)) [
  | inl taken ↦ taken
  | inr free ↦ cc (rw free at e)
]

refused_by :
    (r : Result (ℕ × Db)) (w : World Db)
    → (write_back r w).0 ≡ err duplicate_payment
    → r ≡ err duplicate_payment
refused_by (ok (a, d)) w e = cc
refused_by (err x) w e = let same : x ≡ duplicate_payment = cc in rw same refl

insert-repeats :
    (pay : Payment) (w : World Db)
    → (insert_payment pay w).0 ≡ err duplicate_payment
    → any (is_same_payment pay) w.db.webhook.payments ≡ true
unfolding insert_payment ◌>>=◌
insert-repeats pay w e = elim (Bool-cases (statement w.faults)) [
  | inl bad ↦ cc (rw bad at e)
  | inr good ↦ add-repeats pay w.clock w.db (
      refused_by (add_payment pay w.clock w.db) (record w { faults = later w.faults })
        (rw good at e))
]

tx-repeats :
    (m : Merchant) (pay : Payment) (w : World Db)
    → (create_payment_tx m pay w).0 ≡ err duplicate_payment
    → any (is_same_payment pay) w.db.webhook.payments ≡ true
unfolding create_payment_tx
tx-repeats m pay w e = insert-repeats pay w (
    failed_first (insert_payment pay) _ w
      (λ id.
        Never-bind (Never-transfer _ _ _ _ id)
          λ _. Never-bind Never-now λ at. Never-bind (Never-outbox _ _ _ _) λ _. Never-pure id)
      e)

ended_by :
    (before : Db) (r : Result ℕ × World Db)
    → (end_tx before r).0 ≡ err duplicate_payment
    → r.0 ≡ err duplicate_payment
ended_by before (err x, w) e = e
ended_by before (ok a, w) e = elim (Bool-cases (statement w.faults)) [
  | inl bad ↦ cc (rw bad at e)
  | inr good ↦ cc (rw good at e)
]

-- The transaction of a payment fails as a duplicate only when such a payment is stored.
pub payment_tx-repeats :
    (m : Merchant) (pay : Payment) (w : World Db)
    → (in_tx (λ base. create_payment_tx m pay) w).0 ≡ err duplicate_payment
    → any (is_same_payment pay) w.db.webhook.payments ≡ true
unfolding in_tx
payment_tx-repeats m pay w e = elim (Bool-cases (statement w.faults)) [
  | inl bad ↦ cc (rw bad at e)
  | inr good ↦
      let sent = record w { faults = later w.faults } in
      tx-repeats m pay sent (ended_by w.db (create_payment_tx m pay sent) (rw good at e))
]
