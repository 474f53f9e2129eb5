-- ===== src/Exchange/Deposit/Recapture.antt =====
-- What happens to a deposit that a reorg has reversed and that is captured again.
use gin_demo.Prelude.{any-find_first, ℕ, ◌≡◌, refl, true, Option, some, any, find_first, ◌∙◌}
use gin_demo.Prelude.Text.{to_lower}
use gin_demo.Sql.Rules.{
  From, From-pure, From-call, From-query-then, From-total-then, From-now-then, From-insert,
  From-choose, From-ignore-query, From-weaken,
}
use gin_demo.Schema.{Db}
use gin_demo.Exchange.Types.{Deposit, DepositStatus, EntryType, CaptureDepositParams}
use gin_demo.Exchange.Store.{
  add_deposit, insert_deposit, get_deposit_by_key, reset_deposit_for_recredit,
  mark_deposit_credited, has_ledger_entry, is_deposit_entry, has_deposit_key,
}
use gin_demo.Exchange.Deposit.{DepositNotifier, settle, credit_once, capture_and_credit}

-- The stored deposit that a capture would find.
abbrev pub Stored : CaptureDepositParams → Deposit → Db → Type 0
Stored p dep d =
    find_first (has_deposit_key (to_lower p.tx_hash) p.log_index) d.exchange.deposits ≡ some dep

-- A second insert of a stored deposit answers 0 and changes nothing.
insert_deposit-Stored :
    (p : CaptureDepositParams) (dep : Deposit) (d : Db)
    → Stored p dep d
    → From d (insert_deposit p) (λ id d'. (id ≡ 0) × (d' ≡ d))
unfolding insert_deposit add_deposit
insert_deposit-Stored p dep d stored =
    let there = any-find_first (has_deposit_key (to_lower p.tx_hash) p.log_index) _ stored in
    From-now-then λ at. From-insert _ 0 (λ _. (refl, refl)) (λ a d' e. cc (rw there at e))

-- A deposit that is credited already is left alone: a capture that succeeds changes no table at all.
pub capture_and_credit-credited :
    (webhook : Option DepositNotifier) (base : Db) (p : CaptureDepositParams) (dep : Deposit)
    (d : Db)
    → Stored p dep d
    → dep.status ≡ DepositStatus.credited
    → From d (capture_and_credit webhook base p) (λ _ d'. d' ≡ d)
unfolding capture_and_credit get_deposit_by_key settle
capture_and_credit-credited webhook base p dep d stored credited =
    From-call (insert_deposit-Stored p dep d stored) λ id d1 r. From-query-then _ λ found e.
      let same : found ≡ dep = let read = rw (r.1, stored) at e in cc in
      rw (same, credited) (From-pure tt r.1)

-- The journal and the balances, which a capture may leave alone though it marks the deposit.
abbrev pub SameMoney : Db → Db → Type 0
SameMoney d d' =
    (d'.exchange.entries ≡ d.exchange.entries) × (d'.exchange.accounts ≡ d.exchange.accounts)

mark_deposit_credited-SameMoney :
    (id : ℕ) (d : Db) → From d (mark_deposit_credited id) (λ _ d'. SameMoney d d')
unfolding mark_deposit_credited
mark_deposit_credited-SameMoney id d = From-now-then λ at.
    From-total-then _ _ refl
      (From-choose (λ _. From-ignore-query _ (refl, refl)) (λ _. From-pure tt (refl, refl)))

-- A deposit that a reorg has orphaned, and whose credit is still in the journal: capturing it again
-- moves no balance and writes no entry, though the reorg's reversal took the money.
pub recapture-SameMoney :
    (webhook : Option DepositNotifier) (base : Db) (p : CaptureDepositParams) (dep : Deposit)
    (d : Db)
    → Stored p dep d
    → dep.status ≡ DepositStatus.orphaned
    → any (is_deposit_entry dep.id EntryType.deposit_credit) d.exchange.entries ≡ true
    → From d (capture_and_credit webhook base p) (λ _ d'. SameMoney d d')
unfolding capture_and_credit get_deposit_by_key settle reset_deposit_for_recredit credit_once
    has_ledger_entry
recapture-SameMoney webhook base p dep d stored orphaned kept =
    From-call (insert_deposit-Stored p dep d stored) λ id d1 r. From-query-then _ λ found e.
      let same : found ≡ dep = let read = rw (r.1, stored) at e in cc in
      rw (same, orphaned, r.0, r.1)
        (From-call {R = λ _ d2. SameMoney d d2}
          (From-total-then _ _ refl (From-pure tt (refl, refl)))
          λ _ d2 m. From-query-then _ λ has e2.
            From-choose
              (λ _.
                From-weaken (mark_deposit_credited-SameMoney dep.id d2)
                  λ _ d3 m3. (m3.0 ∙ m.0, m3.1 ∙ m.1))
              (λ absent. let e3 = rw (m.0, kept) at e2 in cc))
