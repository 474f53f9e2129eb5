-- ===== src/Exchange/Deposit/Audit.antt =====
-- Capturing deposits and handling a reorg keep the books audited, and credit no deposit twice.
use gin_demo.Prelude.{
  ℕ, ◌≤◌, ◌≡◌, refl, false, Option, none, some, List, [], ◌∷◌, any, count_where, arith,
}
use gin_demo.Prelude.Text.{Text}
use gin_demo.Sql.{World}
use gin_demo.Sql.Rules.{From, From-pure, From-query-then, From-weaken, From-lift-then}
use gin_demo.Sql.Keeps.{Keeps, Keeps-in_tx, Keeps-choose, Keeps-pure}
use gin_demo.Schema.{Db}
use gin_demo.Exchange.Types.{Deposit, EntryType, LedgerEntry, CaptureDepositParams}
use gin_demo.Exchange.Ledger.{credit_deposit, reverse_deposit, credit_op, reverse_op}
use gin_demo.Exchange.Ledger.Posting.{apply_ledger-Posted}
use gin_demo.Exchange.Ledger.Audit.{
  IsAudited, post_amount-IsAudited, credit_op-IsJournalled, reverse_op-IsJournalled,
}
use gin_demo.Exchange.Store.{get_deposit_by_key, is_deposit_entry}
use gin_demo.Exchange.Deposit.{
  DepositNotifier, DepositProcessor, notify, capture_and_credit, handle_reorg, handle_reorg_tx,
}
use gin_demo.Exchange.Deposit.Books.{capture_and_credit-keeps, handle_reorg_tx-keeps}

-- What the processor relies on of a notifier: it leaves the exchange's own tables alone.
abbrev pub LeavesExchange : DepositNotifier → Type 0
LeavesExchange enqueue =
    (base : Db) (dep : Deposit) (d : Db)
    → From d (enqueue base dep) (λ _ d'. d'.exchange ≡ d.exchange)

abbrev pub AllLeaveExchange : Option DepositNotifier → Type 0
AllLeaveExchange none = Unit
AllLeaveExchange (some enqueue) = LeavesExchange enqueue

notify-keeps :
    (P : Db → Type 0)
    → ((d d' : Db) → d'.exchange ≡ d.exchange → P d → P d')
    → (webhook : Option DepositNotifier) → AllLeaveExchange webhook
    → (base : Db) (p : CaptureDepositParams) (d : Db) → P d
    → From d (notify webhook base p) (λ _ d'. P d')
unfolding get_deposit_by_key
notify-keeps P local none leaves base p d h = From-pure tt h
notify-keeps P local (some enqueue) leaves base p d h =
    From-query-then _ λ dep _. From-weaken (leaves base dep d) λ _ d' same. local d d' same h

credit-IsAudited :
    (user token amount : Text) (id : ℕ) (d : Db)
    → IsAudited d
    → From d (credit_deposit user token amount id) (λ _ d'. IsAudited d')
unfolding credit_deposit
credit-IsAudited user token amount id d h =
    post_amount-IsAudited user token amount (credit_op id) d
      (λ v read. credit_op-IsJournalled id amount v read) h

reverse-IsAudited :
    (user token amount : Text) (id : ℕ) (d : Db)
    → IsAudited d
    → From d (reverse_deposit user token amount id) (λ _ d'. IsAudited d')
unfolding reverse_deposit
reverse-IsAudited user token amount id d h =
    post_amount-IsAudited user token amount (reverse_op id) d
      (λ v read. reverse_op-IsJournalled id amount v read) h

-- A capture that succeeds leaves every balance equal to the sum of its journal entries, if the
-- balances were so before and the notifier leaves the exchange's tables alone.
pub capture_and_credit-IsAudited :
    (webhook : Option DepositNotifier) (base : Db) (p : CaptureDepositParams) (d : Db)
    → AllLeaveExchange webhook
    → IsAudited d
    → From d (capture_and_credit webhook base p) (λ _ d'. IsAudited d')
capture_and_credit-IsAudited webhook base p d leaves h =
    capture_and_credit-keeps IsAudited (λ d rows next h. h)
      (λ user token amount id d _ h. credit-IsAudited user token amount id d h) webhook
      (notify-keeps IsAudited (λ d d' same h. rw same h) webhook leaves) base p d h

pub handle_reorg_tx-IsAudited :
    (p : DepositProcessor) (from : ℕ) (d : Db)
    → IsAudited d
    → From d (handle_reorg_tx p from) (λ _ d'. IsAudited d')
handle_reorg_tx-IsAudited = handle_reorg_tx-keeps IsAudited (λ d rows next h. h) reverse-IsAudited

handle_reorg-Keeps : (p : DepositProcessor) (from : ℕ) → Keeps IsAudited (handle_reorg p from)
unfolding handle_reorg
handle_reorg-Keeps p from =
    Keeps-choose _ _ _ (Keeps-in_tx _ (handle_reorg_tx-IsAudited p from)) (Keeps-pure tt)

-- However `HandleReorg` ends, committed, failed or rolled back, the committed balances equal their
-- journal sums again if they did before.
pub handle_reorg-IsAudited :
    (p : DepositProcessor) (from : ℕ) (w : World Db)
    → IsAudited w.db
    → IsAudited (handle_reorg p from w).1.db
handle_reorg-IsAudited p from w h = (handle_reorg-Keeps p from).at w h

-- how often a deposit has been credited
abbrev pub credits : ℕ → List LedgerEntry → ℕ
credits id entries = count_where (is_deposit_entry id EntryType.deposit_credit) entries

abbrev pub IsCreditedOnce : Db → Type 0
IsCreditedOnce d = (id : ℕ) → credits id d.exchange.entries ≤ 1

credits-none :
    (id : ℕ) (entries : List LedgerEntry)
    → any (is_deposit_entry id EntryType.deposit_credit) entries ≡ false
    → credits id entries ≡ 0
credits-none id [] h = refl
credits-none id (e ∷ older) h = ground (arith, credits-none id older)

credit-IsCreditedOnce :
    (user token amount : Text) (id : ℕ) (d : Db)
    → any (is_deposit_entry id EntryType.deposit_credit) d.exchange.entries ≡ false
    → IsCreditedOnce d
    → From d (credit_deposit user token amount id) (λ _ d'. IsCreditedOnce d')
unfolding credit_deposit credit_op
credit-IsCreditedOnce user token amount id d absent once = From-lift-then _ λ v read.
    From-weaken (apply_ledger-Posted user token (credit_op id v) d) λ _ d' posting j.
      rw posting.written (ground (arith, once j, credits-none id d.exchange.entries absent))

-- Capturing never credits a deposit a second time: if no deposit has two credit entries before, none
-- has two after, provided that the notifier leaves the exchange's tables alone.
pub capture_and_credit-IsCreditedOnce :
    (webhook : Option DepositNotifier) (base : Db) (p : CaptureDepositParams) (d : Db)
    → AllLeaveExchange webhook
    → IsCreditedOnce d
    → From d (capture_and_credit webhook base p) (λ _ d'. IsCreditedOnce d')
capture_and_credit-IsCreditedOnce webhook base p d leaves h =
    capture_and_credit-keeps IsCreditedOnce (λ d rows next h. h) credit-IsCreditedOnce webhook
      (notify-keeps IsCreditedOnce (λ d d' same h. rw same h) webhook leaves) base p d h

reverse-IsCreditedOnce :
    (user token amount : Text) (id : ℕ) (d : Db)
    → IsCreditedOnce d
    → From d (reverse_deposit user token amount id) (λ _ d'. IsCreditedOnce d')
unfolding reverse_deposit reverse_op
reverse-IsCreditedOnce user token amount id d once = From-lift-then _ λ v read.
    From-weaken (apply_ledger-Posted user token (reverse_op id v) d)
      λ _ d' posting j. rw posting.written (ground (arith, once j))

-- Reversing the deposits of a reorg credits none.
pub handle_reorg_tx-IsCreditedOnce :
    (p : DepositProcessor) (from : ℕ) (d : Db)
    → IsCreditedOnce d
    → From d (handle_reorg_tx p from) (λ _ d'. IsCreditedOnce d')
handle_reorg_tx-IsCreditedOnce =
    handle_reorg_tx-keeps IsCreditedOnce (λ d rows next h. h) reverse-IsCreditedOnce
