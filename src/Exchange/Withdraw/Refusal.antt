-- ===== src/Exchange/Withdraw/Refusal.antt =====
-- The journal look-up names the reference type 'deposit' only, so it finds no entry of a withdrawal.
-- What follows for the handlers that ask it, and what a new request runs into.
use gin_demo.Prelude.{
  ℕ, ◌<◌, ◌≡◌, refl, Bool, true, false, none, some, List, [], ◌∷◌, ◌==◌, any, All, find_first,
  update_where, arith,
}
use gin_demo.Prelude.Text.{Text}
use gin_demo.Sql.{err, Error, World}
use gin_demo.Sql.Rules.{
  From, From-pure, From-call, From-query-then, From-query, From-total-then, From-now-then,
  From-insert, From-guard-then, From-weaken, From-else, From-in_tx, refused,
}
use gin_demo.Sql.Keeps.{Keeps, Keeps-bind, Keeps-guard, Keeps-in_tx, Keeps-query}
use gin_demo.Schema.{Db}
use gin_demo.Exchange.Types.{
  WithdrawRequest, WithdrawStatus, CreateWithdrawParams, EntryType, RefType, LedgerEntry,
}
use gin_demo.Exchange.Ledger.{LedgerOp}
use gin_demo.Exchange.Ledger.Posting.{Posted}
use gin_demo.Exchange.Store.{has_ledger_entry, is_deposit_entry, same_ref}
use gin_demo.Exchange.Store.Withdraws.{
  find_withdraw, add_withdraw, key_taken, key_or_null, get_withdraw,
}
use gin_demo.Exchange.Withdraw.{
  Outside, Settings, insert_withdraw_tx, create_withdraw_tx, create_withdraw,
  fail_withdraw_and_unfreeze, as_failed,
}
use gin_demo.Exchange.Deposit.Recapture.{SameMoney}

-- An entry that refers to a deposit is a deposit's credit or reversal.
abbrev is_deposit_type : EntryType → Bool
is_deposit_type EntryType.deposit_credit = true
is_deposit_type EntryType.deposit_reverse = true
is_deposit_type _ = false

abbrev HasFittingRef : LedgerEntry → Type 0
HasFittingRef e = same_ref e.ref_type RefType.deposit ≡ true → is_deposit_type e.entry_type ≡ true

abbrev pub IsTyped : Db → Type 0
IsTyped d = All HasFittingRef d.exchange.entries

-- Posting keeps the journal typed if the operation's reference fits its type.
pub Posted-IsTyped :
    (user token : Text) (op : LedgerOp) {d d' : Db}
    → (same_ref op.ref_type RefType.deposit ≡ true → is_deposit_type op.entry_type ≡ true)
    → Posted user token op d d'
    → IsTyped d
    → IsTyped d'
Posted-IsTyped user token op fits p h = rw p.written (fits, h)

no_entry :
    (id : ℕ) (type : EntryType) (entries : List LedgerEntry)
    → is_deposit_type type ≡ false
    → All HasFittingRef entries
    → any (is_deposit_entry id type) entries ≡ false
no_entry id type [] other h = refl
no_entry id type (e ∷ older) other h = ground (arith, no_entry id type older other h.1)

-- The look-up for an entry of a withdrawal answers no, whatever the journal holds.
pub has_ledger_entry-withdraw :
    (id : ℕ) (type : EntryType) (d : Db)
    → is_deposit_type type ≡ false
    → IsTyped d
    → From d (has_ledger_entry id type) (λ found d'. (found ≡ false) × (d' ≡ d))
unfolding has_ledger_entry
has_ledger_entry-withdraw id type d other h =
    From-query _ λ found e. let none_there = no_entry id type _ other h in (cc, refl)

-- Every row with the withdrawal's id is marked failed.
abbrev pub MarkedFailed : ℕ → Db → Type 0
MarkedFailed id d =
    All (λ (x : WithdrawRequest). x.id ≡ id → x.status ≡ WithdrawStatus.failed) d.exchange.withdraws

All-marked :
    (id at : ℕ) (reason : Text) (rows : List WithdrawRequest)
    → All
        (λ (x : WithdrawRequest). x.id ≡ id → x.status ≡ WithdrawStatus.failed)
        (update_where (λ x. x.id == id) (as_failed at reason) rows)
All-marked id at reason [] = tt
All-marked id at reason (x ∷ rows) = (ground arith, All-marked id at reason rows)

-- Failing a withdrawal marks it failed and leaves every balance and the journal as they are: the
-- frozen amount is not given back, whatever was frozen for it before.
pub fail_withdraw-SameMoney :
    (w : WithdrawRequest) (reason : Text) (d : Db)
    → IsTyped d
    → From d (fail_withdraw_and_unfreeze w reason) (λ _ d'. SameMoney d d' × MarkedFailed w.id d')
unfolding fail_withdraw_and_unfreeze
fail_withdraw-SameMoney w reason d typed =
    From-call (has_ledger_entry-withdraw w.id EntryType.withdraw_unfreeze d refl typed)
      λ unfrozen d1 r1.
        rw (r1.0, r1.1)
          (From-call {R = λ found d'. (found ≡ false) × (d' ≡ d)}
            (From-else _ _ (has_ledger_entry-withdraw w.id EntryType.withdraw_freeze d refl typed))
            λ frozen d2 r2.
              rw (r2.0, r2.1)
                (From-call {R = λ _ d'. d' ≡ d} (From-else _ _ (From-pure tt refl)) λ _ d3 r3.
                  rw r3 (
                    From-now-then λ at. From-total-then _ _ refl (
                      From-pure tt
                        ((refl, refl), All-marked w.id at reason d.exchange.withdraws)))))

-- Every stored withdrawal has an id below the next one.
abbrev pub HasFreshIds : Db → Type 0
HasFreshIds d =
    All (λ (x : WithdrawRequest). x.id < d.exchange.next_withdraw_id) d.exchange.withdraws

not_found :
    (next : ℕ) (rows : List WithdrawRequest)
    → All (λ (x : WithdrawRequest). x.id < next) rows
    → find_first (λ x. x.id == next) rows ≡ none
not_found next [] h = refl
not_found next (x ∷ rows) h = ground (arith, not_found next rows h.1)

new_insert-refused :
    (p : CreateWithdrawParams) (status : WithdrawStatus) (d : Db)
    → HasFreshIds d
    → key_taken (key_or_null p.idempotency_key) d.exchange.withdraws ≡ false
    → From d (insert_withdraw_tx d p status) (λ _ _. ⊥)
unfolding insert_withdraw_tx add_withdraw find_withdraw
new_insert-refused p status d fresh free = From-now-then λ at.
    From-call {R = λ id d'. id ≡ some d.exchange.next_withdraw_id}
      (From-insert _ none (λ e. cc (rw free at e)) (λ a d' e. let f = rw free at e in cc))
      λ id d1 r. rw r (
        From-query-then _ λ w e.
          let missing = not_found d.exchange.next_withdraw_id d.exchange.withdraws fresh in
          cc (rw missing at e))

new_tx-refused :
    (p : CreateWithdrawParams) (status : WithdrawStatus) (d : Db)
    → HasFreshIds d
    → key_taken (key_or_null p.idempotency_key) d.exchange.withdraws ≡ false
    → From d (create_withdraw_tx d p status) (λ _ _. ⊥)
unfolding create_withdraw_tx
new_tx-refused p status d fresh free =
    From-call {R = λ _ _. ⊥} (new_insert-refused p status d fresh free) (λ row d1 r. absurd r)

never_created :
    (o : Outside) (s : Settings) (p : CreateWithdrawParams) (d : Db)
    → HasFreshIds d
    → key_taken (key_or_null p.idempotency_key) d.exchange.withdraws ≡ false
    → From d (create_withdraw o s p) (λ _ _. ⊥)
unfolding create_withdraw
never_created o s p d fresh free = From-guard-then _ _ λ amount. From-guard-then _ _ λ address.
    From-call {R = λ _ _. ⊥} (From-in_tx _ (new_tx-refused p _ d fresh free)) (λ id d1 r. absurd r)

never_stored :
    (o : Outside) (s : Settings) (p : CreateWithdrawParams) (d : Db)
    → HasFreshIds d
    → key_taken (key_or_null p.idempotency_key) d.exchange.withdraws ≡ false
    → Keeps (λ x. x ≡ d) (create_withdraw o s p)
unfolding create_withdraw get_withdraw
never_stored o s p d fresh free = Keeps-bind (Keeps-guard _ _) λ amount.
    Keeps-bind (Keeps-guard _ _) λ address.
      Keeps-bind
        (Keeps-in_tx _
          λ d1 e. rw e (From-weaken (new_tx-refused p _ d fresh free) (λ id d2 r. absurd r)))
        (λ id. Keeps-query _)

-- A new withdrawal request is always refused, and nothing is stored: the row is read back outside
-- the transaction that has inserted it. This holds for every request whose idempotency key is not
-- taken, on tables whose ids are below the next one.
pub create_withdraw-refused :
    (o : Outside) (s : Settings) (p : CreateWithdrawParams) (w : World Db)
    → HasFreshIds w.db
    → key_taken (key_or_null p.idempotency_key) w.db.exchange.withdraws ≡ false
    → (e : Error) × ((create_withdraw o s p w).0 ≡ err e) × ((create_withdraw o s p w).1.db ≡ w.db)
create_withdraw-refused o s p w fresh free =
    let (e, refusal) =
      refused (create_withdraw o s p w) ((never_created o s p w.db fresh free).at w refl) in
    (e, refusal, (never_stored o s p w.db fresh free).at w refl)
