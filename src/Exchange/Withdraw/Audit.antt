-- ===== src/Exchange/Withdraw/Audit.antt =====
-- The withdrawal handlers keep the books audited, however they end.
use gin_demo.Prelude.{ℕ, refl, Bool, false, Option, none, some, List}
use gin_demo.Prelude.Text.{Text}
use gin_demo.Sql.{World, pure, choose}
use gin_demo.Sql.Rules.{
  From, From-pure, From-call, From-query-then, From-query, From-total-then, From-now-then,
  From-choose, From-guard-then,
}
use gin_demo.Sql.Keeps.{
  Keeps, Keeps-bind, Keeps-in_tx, Keeps-choose, Keeps-pure, Keeps-query, Keeps-guard,
  Keeps-optional,
}
use gin_demo.Schema.{Db, Action}
use gin_demo.Exchange.Types.{WithdrawRequest, EntryType}
use gin_demo.Exchange.Ledger.{
  freeze_withdraw, unfreeze_withdraw, debit_withdraw, freeze_op, unfreeze_op, debit_op,
}
use gin_demo.Exchange.Ledger.Audit.{
  IsAudited, post_amount-IsAudited, freeze_op-IsJournalled, unfreeze_op-IsJournalled,
  debit_op-IsJournalled,
}
use gin_demo.Exchange.Store.{has_ledger_entry}
use gin_demo.Exchange.Store.Withdraws.{get_withdraw, get_withdraw_by_tx_hash}
use gin_demo.Exchange.Withdraw.{
  reject_withdraw_tx, reject_withdraw, fail_withdraw_and_unfreeze, confirm_withdraw_tx,
  on_withdraw_tx_confirmed, on_withdraw_tx_failed, when_found,
}

module _ (user token amount : Text) (id : ℕ) (d : Db) (h : IsAudited d) where
  freeze-IsAudited : From d (freeze_withdraw user token amount id) (λ _ d'. IsAudited d')
  unfolding freeze_withdraw
  freeze-IsAudited =
      post_amount-IsAudited user token amount (freeze_op id) d
        (λ v read. freeze_op-IsJournalled id amount v read) h

  unfreeze-IsAudited : From d (unfreeze_withdraw user token amount id) (λ _ d'. IsAudited d')
  unfolding unfreeze_withdraw
  unfreeze-IsAudited =
      post_amount-IsAudited user token amount (unfreeze_op id) d
        (λ v read. unfreeze_op-IsJournalled id amount v read) h

  debit-IsAudited : From d (debit_withdraw user token amount id) (λ _ d'. IsAudited d')
  unfolding debit_withdraw
  debit-IsAudited =
      post_amount-IsAudited user token amount (debit_op id) d
        (λ v read. debit_op-IsJournalled id amount v read) h

-- What a move of a withdrawal's amount keeps, a handler keeps.
abbrev pub MoveKeeps : (Db → Type 0) → (Text → Text → Text → ℕ → Action (Unit {0})) → Type 0
MoveKeeps P move =
    (user token amount : Text) (id : ℕ) (d : Db)
    → P d
    → From d (move user token amount id) (λ _ d'. P d')

-- `P` says nothing of the withdrawals.
abbrev pub IgnoresWithdraws : (Db → Type 0) → Type 0
IgnoresWithdraws P =
    (d : Db) (rows : List WithdrawRequest)
    → P d
    → P (record d { exchange = record (d.exchange) { withdraws = rows } })

module _ (P : Db → Type 0) (unfreezes : MoveKeeps P unfreeze_withdraw)
    (debits : MoveKeeps P debit_withdraw) (rows : IgnoresWithdraws P) where
  has_entry-keeps :
      (id : ℕ) (type : EntryType) (skip : Bool) (d : Db)
      → P d
      → From d (choose skip (pure false) (has_ledger_entry id type)) (λ _ d'. P d')
  unfolding has_ledger_entry
  has_entry-keeps id type skip d h =
      From-choose (λ _. From-pure false h) (λ _. From-query _ (λ _ _. h))

  confirm-keeps :
      (w : WithdrawRequest) (d : Db) → P d → From d (confirm_withdraw_tx w) (λ _ d'. P d')
  unfolding confirm_withdraw_tx has_ledger_entry
  confirm-keeps w d h = From-query-then _ λ has _.
      From-call {R = λ _ d'. P d'}
        (From-choose (λ _. From-pure tt h)
          (λ _. debits w.user_id w.token_address w.amount_wei w.id d h))
        λ _ d1 h1. From-now-then λ at. From-total-then _ _ refl (From-pure tt (rows d1 _ h1))

  fail-keeps :
      (w : WithdrawRequest) (reason : Text) (d : Db)
      → P d
      → From d (fail_withdraw_and_unfreeze w reason) (λ _ d'. P d')
  unfolding fail_withdraw_and_unfreeze has_ledger_entry
  fail-keeps w reason d h = From-query-then _ λ unfrozen _.
      From-call (has_entry-keeps w.id EntryType.withdraw_freeze unfrozen d h) λ frozen d1 h1.
        From-call {R = λ _ d'. P d'}
          (From-choose (λ _. unfreezes w.user_id w.token_address w.amount_wei w.id d1 h1)
            (λ _. From-pure tt h1))
          λ _ d2 h2. From-now-then λ at. From-total-then _ _ refl (From-pure tt (rows d2 _ h2))

  Keeps-when_found :
      (f : WithdrawRequest → Action (Unit {0})) (found : Option WithdrawRequest)
      → ((w : WithdrawRequest) → Keeps P (f w))
      → Keeps P (when_found f found)
  unfolding when_found
  Keeps-when_found f none h = Keeps-pure tt
  Keeps-when_found f (some w) h = h w

  pub handlers-keep :
      (hash : Text) → Keeps P (on_withdraw_tx_confirmed hash) × Keeps P (on_withdraw_tx_failed hash)
  unfolding on_withdraw_tx_confirmed on_withdraw_tx_failed get_withdraw_by_tx_hash
  handlers-keep hash = (
    Keeps-bind (Keeps-optional _ (Keeps-query _)) λ found.
        Keeps-when_found _ found
          λ w. Keeps-choose _ _ _ (Keeps-in_tx _ (λ d h. confirm-keeps w d h)) (Keeps-pure tt),
    Keeps-bind (Keeps-optional _ (Keeps-query _)) λ found.
        Keeps-when_found _ found
          λ w. Keeps-choose _ _ _ (Keeps-pure tt) (Keeps-in_tx _ (λ d h. fail-keeps w _ d h)),
  )

reject-IsAudited :
    (w : WithdrawRequest) (id : ℕ) (reviewer reason : Text) (d : Db)
    → IsAudited d
    → From d (reject_withdraw_tx w id reviewer reason) (λ _ d'. IsAudited d')
unfolding reject_withdraw_tx
reject-IsAudited w id reviewer reason d h = From-now-then λ at.
    From-total-then _ _ refl
      (From-guard-then _ _ λ _. unfreeze-IsAudited w.user_id w.token_address w.amount_wei w.id _ h)

pub handlers-IsAudited :
    (hash : Text)
    → Keeps IsAudited (on_withdraw_tx_confirmed hash) × Keeps IsAudited (on_withdraw_tx_failed hash)
handlers-IsAudited hash =
    handlers-keep IsAudited
      (λ user token amount id d h. unfreeze-IsAudited user token amount id d h)
      (λ user token amount id d h. debit-IsAudited user token amount id d h) (λ d rows h. h) hash

rejected-Keeps :
    (id : ℕ) (reviewer reason : Text) → Keeps IsAudited (reject_withdraw id reviewer reason)
unfolding reject_withdraw get_withdraw
rejected-Keeps id reviewer reason = Keeps-bind (Keeps-query _) λ w.
    Keeps-bind (Keeps-guard _ _) λ _.
      Keeps-bind (Keeps-in_tx _ (λ d h. reject-IsAudited w id reviewer reason d h))
        λ _. Keeps-query _

-- `OnWithdrawTxConfirmed`, however it ends, leaves every committed balance equal to its journal sum,
-- if the balances were so before.
pub on_withdraw_tx_confirmed-IsAudited :
    (hash : Text) (w : World Db) → IsAudited w.db → IsAudited (on_withdraw_tx_confirmed hash w).1.db
on_withdraw_tx_confirmed-IsAudited hash w h = (handlers-IsAudited hash).0.at w h

-- `OnWithdrawTxFailed`, however it ends, leaves every committed balance equal to its journal sum, if
-- the balances were so before.
pub on_withdraw_tx_failed-IsAudited :
    (hash : Text) (w : World Db) → IsAudited w.db → IsAudited (on_withdraw_tx_failed hash w).1.db
on_withdraw_tx_failed-IsAudited hash w h = (handlers-IsAudited hash).1.at w h

-- `RejectWithdraw`, however it ends, leaves every committed balance equal to its journal sum, if the
-- balances were so before.
pub reject_withdraw-IsAudited :
    (id : ℕ) (reviewer reason : Text) (w : World Db)
    → IsAudited w.db
    → IsAudited (reject_withdraw id reviewer reason w).1.db
reject_withdraw-IsAudited id reviewer reason w h = (rejected-Keeps id reviewer reason).at w h
