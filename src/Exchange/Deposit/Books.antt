-- ===== src/Exchange/Deposit/Books.antt =====
-- Whatever crediting and reversing keep, capturing deposits and handling a reorg keep.
use gin_demo.Prelude.{
  ℕ, ◌≡◌, refl, false, Option, List, [], ◌∷◌, ◌==◌, any, if◌then◌else◌, subst, Bool-cases, inl, inr,
}
use gin_demo.Prelude.Text.{Text, to_lower}
use gin_demo.Sql.{Result, ok}
use gin_demo.Sql.Rules.{
  From, From-pure, From-choose, From-call, From-query, From-query-then, From-total-then,
  From-now-then, From-insert, From-ignore-query,
}
use gin_demo.Schema.{Db}
use gin_demo.Exchange.Types.{Deposit, DepositStatus, EntryType, CaptureDepositParams}
use gin_demo.Exchange.Ledger.{credit_deposit, reverse_deposit}
use gin_demo.Exchange.Store.{
  insert_deposit, add_deposit, get_deposit_by_key, reset_deposit_for_recredit,
  mark_deposit_credited, has_ledger_entry, is_deposit_entry, has_deposit_key,
  orphan_deposits_from_block,
}
use gin_demo.Exchange.Deposit.{
  DepositNotifier, DepositProcessor, notify, credit_once, settle, capture_and_credit, reverse_one,
  reverse_all, handle_reorg_tx,
}

-- `P` says nothing of the deposits table.
abbrev pub IgnoresDeposits : (Db → Type 0) → Type 0
IgnoresDeposits P =
    (d : Db) (rows : List Deposit) (next : ℕ)
    → P d
    → P (record d { exchange = record (d.exchange) { deposits = rows; next_deposit_id = next } })

ok-tables :
    (P : Db → Type 0) {a b : ℕ} {d d' : Db}
    → ◌≡◌ {A = Result (ℕ × Db)} (ok (a, d)) (ok (b, d'))
    → P d
    → P d'
ok-tables P {a} {b} {d} {d'} e h = let same : d ≡ d' = cc in subst P same h

module _ (P : Db → Type 0) (ignores : IgnoresDeposits P) where
  add_deposit-keeps :
      (p : CaptureDepositParams) (at : ℕ) {d : Db}
      → P d
      → (a : ℕ) (d' : Db) → add_deposit p at d ≡ ok (a, d')
      → P d'
  unfolding add_deposit
  add_deposit-keeps p at {d} h a d' e =
      elim (Bool-cases
        (any (has_deposit_key (to_lower p.tx_hash) p.log_index) d.exchange.deposits)) [
          | inl there ↦ cc (rw there at e)
          | inr fresh ↦ ok-tables P (rw fresh at e) (ignores d _ _ h)
        ]

  insert_deposit-keeps :
      (p : CaptureDepositParams) (d : Db) → P d → From d (insert_deposit p) (λ _ d'. P d')
  unfolding insert_deposit
  insert_deposit-keeps p d h =
      From-now-then λ at. From-insert _ 0 (λ e. h) (λ a d' e. add_deposit-keeps p at h a d' e)

  mark_deposit_credited-keeps :
      (id : ℕ) (d : Db) → P d → From d (mark_deposit_credited id) (λ _ d'. P d')
  unfolding mark_deposit_credited
  mark_deposit_credited-keeps id d h = From-now-then λ at. From-total-then _ _ refl (
      From-choose (λ e. From-ignore-query _ (ignores d _ _ h))
        (λ e. From-pure tt (ignores d _ _ h)))

  reset-keeps :
      (id block : ℕ) (d : Db) → P d → From d (reset_deposit_for_recredit id block) (λ _ d'. P d')
  unfolding reset_deposit_for_recredit
  reset-keeps id block d h = From-total-then _ _ refl (From-pure tt (ignores d _ _ h))

  -- the credit, where the journal has none, and the notifier
  module _
      (credits : (user token amount : Text) (id : ℕ) (d : Db)
        → any (is_deposit_entry id EntryType.deposit_credit) d.exchange.entries ≡ false
        → P d
        → From d (credit_deposit user token amount id) (λ _ d'. P d'))
      (webhook : Option DepositNotifier)
      (notifies : (base : Db) (p : CaptureDepositParams) (d : Db)
        → P d
        → From d (notify webhook base p) (λ _ d'. P d')) where
    credit_once-keeps :
        (base : Db) (p : CaptureDepositParams) (id : ℕ) (d : Db)
        → P d
        → From d (credit_once webhook base p id) (λ _ d'. P d')
    unfolding credit_once has_ledger_entry
    credit_once-keeps base p id d h = From-query-then _ λ found e.
        From-choose (λ _. mark_deposit_credited-keeps id d h)
          λ absent.
            From-call (credits p.user_id p.token_address p.amount_wei id d (cc) h) λ _ d1 h1.
              From-call (mark_deposit_credited-keeps id d1 h1) λ _ d2 h2. notifies base p d2 h2

    settle-keeps :
        (status : DepositStatus) (base : Db) (p : CaptureDepositParams) (id : ℕ) (d : Db)
        → P d
        → From d (settle status webhook base p id) (λ _ d'. P d')
    unfolding settle
    settle-keeps DepositStatus.credited base p id d h = From-pure tt h
    settle-keeps DepositStatus.orphaned base p id d h =
        From-call (reset-keeps id p.block_number d h) λ _ d1 h1. credit_once-keeps base p id d1 h1
    settle-keeps DepositStatus.pending base p id d h = credit_once-keeps base p id d h

    pub capture_and_credit-keeps :
        (base : Db) (p : CaptureDepositParams) (d : Db)
        → P d
        → From d (capture_and_credit webhook base p) (λ _ d'. P d')
    unfolding capture_and_credit get_deposit_by_key
    capture_and_credit-keeps base p d h = From-call (insert_deposit-keeps p d h) λ new_id d1 h1.
        From-query-then _
          λ dep e. settle-keeps dep.status base p (if new_id == 0 then dep.id else new_id) d1 h1

  -- the reversals of a reorg
  module _
      (reverses : (user token amount : Text) (id : ℕ) (d : Db)
        → P d
        → From d (reverse_deposit user token amount id) (λ _ d'. P d')) where
    reverse_one-keeps : (dep : Deposit) (d : Db) → P d → From d (reverse_one dep) (λ _ d'. P d')
    unfolding reverse_one has_ledger_entry
    reverse_one-keeps dep d h =
        From-choose
          (λ _. From-query-then _ λ reversed e.
            From-call {R = λ _ d'. P d'}
              (From-choose (λ _. From-pure false h) (λ _. From-query _ (λ _ _. h)))
              λ has_credit d1 h1.
                From-choose
                  (λ _. reverses dep.user_id dep.token_address dep.amount_wei dep.id d1 h1)
                  (λ _. From-pure tt h1))
          (λ _. From-pure tt h)

    reverse_all-keeps :
        (deps : List Deposit) (d : Db) → P d → From d (reverse_all deps) (λ _ d'. P d')
    unfolding reverse_all
    reverse_all-keeps [] d h = From-pure tt h
    reverse_all-keeps (dep ∷ rest) d h =
        From-call (reverse_one-keeps dep d h) λ _ d1 h1. reverse_all-keeps rest d1 h1

    pub handle_reorg_tx-keeps :
        (p : DepositProcessor) (from : ℕ) (d : Db)
        → P d
        → From d (handle_reorg_tx p from) (λ _ d'. P d')
    unfolding handle_reorg_tx orphan_deposits_from_block
    handle_reorg_tx-keeps p from d h =
        From-choose
          (λ _.
            From-call {R = λ _ d'. P d'}
              (From-query-then _
                λ found _. From-total-then _ _ refl (From-pure found (ignores d _ _ h)))
              λ deps d1 h1. reverse_all-keeps deps d1 h1)
          (λ _. From-pure tt h)
