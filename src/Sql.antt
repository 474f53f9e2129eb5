-- ===== src/Sql.antt =====
-- `database/sql` sessions. A world holds the tables that the session sees, the outcome of the
-- statements still to come (a statement may fail at any time), and the clock. Outside a transaction
-- every statement commits by itself; inside one it works on a copy that only a commit publishes.
pub mod Rules
pub mod Keeps
pub mod Stops
pub mod Runs
pub mod Yields
use gin_demo.Prelude.{ℕ, Bool, true, false, List, [], ◌∷◌, Option, none, some, if◌then◌else◌}

pub data Error : Type 0 where
  db_error no_rows duplicate : Error
  invalid_wei insufficient_balance invalid_withdraw_state no_hot_wallet : Error
  withdraw_already_handled invalid_to_address not_configured : Error
  remote idempotency_conflict invalid_value not_pending : Error
  not_enabled merchant_not_found merchant_disabled duplicate_binding duplicate_payment : Error
  invalid_webhook_url outbox_not_found merchant_id_required ledger_user_required : Error
  node_error cache_error unknown_event invalid_event : Error
  wallet_not_found wallet_disabled deposit_requires_user_id : Error
  wallet_owner_conflict wallet_type_immutable : Error

pub data Result (A : Type 0) : Type 0 where
  ok : A → Result A
  err : Error → Result A

pub record World (D : Type 0) : Type 0 where
  pub db : D
  pub faults : List Bool
  pub clock : ℕ

abbrev pub Session : Type 0 → Type 0 → Type 0
Session D A = World D → Result A × World D

module _ {D A : Type 0} where
  unfoldable pub pure : A → Session D A
  pure a w = (ok a, w)

  unfoldable pub fail : Error → Session D A
  fail e w = (err e, w)

  unfoldable pub lift : Result A → Session D A
  lift r w = (r, w)

-- One statement is sent: it fails if the next outcome says so.
abbrev pub statement : List Bool → Bool
statement [] = false
statement (bad ∷ _) = bad

abbrev pub later : List Bool → List Bool
later [] = []
later (_ ∷ rest) = rest

module _ {D : Type 0} where
  -- an early `return err` unless the test holds
  unfoldable pub guard : Bool → Error → Session D (Unit {0})
  guard true e w = (ok tt, w)
  guard false e w = (err e, w)

  -- `time.Now()`
  unfoldable pub now : Session D ℕ
  now w = (ok w.clock, w)

module _ {D A : Type 0} where
  abbrev pub write_back : Result (A × D) → World D → Result A × World D
  write_back (ok (a, d)) w = (ok a, record w { db = d })
  write_back (err e) w = (err e, w)

  -- `ExecContext`: a statement that may change the tables
  unfoldable pub exec : (D → Result (A × D)) → Session D A
  exec f w =
      let sent = record w { faults = later w.faults } in
      if statement w.faults then (err db_error, sent) else write_back (f w.db) sent

  -- `QueryContext`, `QueryRowContext`: a statement that only reads
  unfoldable pub query : (D → Result A) → Session D A
  query f w =
      let sent = record w { faults = later w.faults } in
      if statement w.faults then (err db_error, sent) else (f w.db, sent)

  -- a change of what the process itself keeps in memory, which no statement outcome concerns
  unfoldable pub memory : (D → A × D) → Session D A
  memory f w = let (a, d) = f w.db in (ok a, record w { db = d })

  abbrev pub end_tx : D → Result A × World D → Result A × World D
  end_tx before (err e, w) = (err e, record w { db = before })
  end_tx before (ok a, w) =
      if statement w.faults
      then (err db_error, record w { db = before; faults = later w.faults })
      else (ok a, record w { faults = later w.faults })

  -- `BeginTx`, the body, `Commit`, with `defer Rollback`. The body is given the tables as they were
  -- committed, which is what a statement outside the transaction still sees.
  unfoldable pub in_tx : (D → Session D A) → Session D A
  in_tx body w =
      let sent = record w { faults = later w.faults } in
      if statement w.faults then (err db_error, sent) else end_tx w.db (body w.db sent)

module _ {D A : Type 0} where
  abbrev pub on_duplicate : A → Result A × World D → Result A × World D
  on_duplicate a (err duplicate, w) = (ok a, w)
  on_duplicate a (r, w) = (r, w)

  -- `if isDup(err) { return a, nil }`
  unfoldable pub or_if_duplicate : Session D A → A → Session D A
  or_if_duplicate m a w = on_duplicate a (m w)

  abbrev pub dropped_result : Result A × World D → Result (Unit {0}) × World D
  dropped_result (r, w) = (ok tt, w)

  -- `_ = m`: the result is thrown away, an error too
  unfoldable pub ignore : Session D A → Session D (Unit {0})
  ignore m w = dropped_result (m w)

  abbrev pub as_value : Result A × World D → Result (Result A) × World D
  as_value (r, w) = (ok r, w)

  -- the error as a value, for a caller that handles every error
  unfoldable pub attempt : Session D A → Session D (Result A)
  attempt m w = as_value (m w)

  abbrev pub missing_as_none : Result A × World D → Result (Option A) × World D
  missing_as_none (ok a, w) = (ok (some a), w)
  missing_as_none (err no_rows, w) = (ok none, w)
  missing_as_none (err e, w) = (err e, w)

  -- a query whose `sql.ErrNoRows` the caller handles
  unfoldable pub optional : Session D A → Session D (Option A)
  optional m w = missing_as_none (m w)

module _ {D A : Type 0} where
  abbrev pub and_then : (D → D) → Result A × World D → Result A × World D
  and_then f (r, w) = (r, record w { db = f w.db })

  -- `defer`: a change in memory after the rest, whatever its result
  unfoldable pub deferred : (D → D) → Session D A → Session D A
  deferred f m w = and_then f (m w)

abbrev pub first_row : {A : Type 0} → Option A → Result A
first_row none = err no_rows
first_row (some a) = ok a

module _ {D A : Type 0} where
  -- `if b { m } else { n }`, where both go on with the session
  unfoldable pub choose : Bool → Session D A → Session D A → Session D A
  choose true m n = m
  choose false m n = n

module _ {D A B : Type 0} where
  abbrev pub continue : Result A → (A → Session D B) → Session D B
  continue (ok a) f w = f a w
  continue (err e) f w = (err e, w)

  infixl 5 ◌>>=◌ ◌>>◌
  -- opening this opens every primitive too
  unfoldable pub ◌>>=◌ : Session D A → (A → Session D B) → Session D B
  unfolding pure fail lift guard now choose exec query memory in_tx or_if_duplicate ignore attempt
      optional
  ◌>>=◌ m f w = let (r, w') = m w in continue r f w'

  abbrev pub ◌>>◌ : Session D A → Session D B → Session D B
  m >> n = m >>= λ _. n
