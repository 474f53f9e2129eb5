-- ===== src/Webhook/Outbox/Claiming.antt =====
-- The rows that a claim takes, and their status afterwards.
use gin_demo.Prelude.{
  ℕ, ◌≡◌, refl, List, [], ◌∷◌, ◌==◌, All, update_where, arith, take, select, Bool-cases, inl, inr,
}
use gin_demo.Sql.{World, ok, ◌>>=◌}
use mathlib.Core.List.{reverse}
use gin_demo.Sql.Rules.{
  From, From-pure, From-call, From-total-then, From-query-then, From-now-then, From-in_tx,
  From-weaken,
}
use gin_demo.Schema.{Db}
use gin_demo.Webhook.Types.{OutboxRow, OutboxStatus}
use gin_demo.Webhook.Outbox.{as_processing, take_all, claim_outbox_tx, claim_outbox_batch, is_due}

abbrev pub RowsProcessing : ℕ → List OutboxRow → Type 0
RowsProcessing id rows =
    All (λ (x : OutboxRow). x.id ≡ id → x.status ≡ OutboxStatus.processing) rows

-- Every row with the id is being processed.
abbrev pub IsProcessing : ℕ → Db → Type 0
IsProcessing id d = RowsProcessing id d.webhook.outbox

taken_now :
    (id at : ℕ) (rows : List OutboxRow)
    → RowsProcessing id (update_where (λ x. x.id == id) (as_processing at) rows)
taken_now id at [] = tt
taken_now id at (x ∷ rows) = elim (Bool-cases (x.id == id)) [
  | inl hit ↦ rw hit ((λ _. refl), taken_now id at rows)
  | inr miss ↦
      rw miss ((λ e. let same : x.id ≡ id = e in ground (arith, same)), taken_now id at rows)
]

taken_before :
    (id other at : ℕ) (rows : List OutboxRow)
    → RowsProcessing id rows
    → RowsProcessing id (update_where (λ x. x.id == other) (as_processing at) rows)
taken_before id other at [] h = tt
taken_before id other at (x ∷ rows) h = elim (Bool-cases (x.id == other)) [
  | inl hit ↦ rw hit ((λ _. refl), taken_before id other at rows h.1)
  | inr miss ↦ rw miss (h.0, taken_before id other at rows h.1)
]

-- The rows of the batch are taken, and those that were taken before stay so.
abbrev Taken : List OutboxRow → Db → Db → Type 0
Taken batch d d' =
    ((id : ℕ) → IsProcessing id d → IsProcessing id d')
    × All (λ (r : OutboxRow). IsProcessing r.id d') batch

take_all-Taken :
    (at : ℕ) (batch : List OutboxRow) (d : Db)
    → From d (take_all at batch) (λ _ d'. Taken batch d d')
unfolding take_all
take_all-Taken at [] d = From-pure tt ((λ id h. h), tt)
take_all-Taken at (r ∷ rest) d = From-total-then _ _ refl (
    From-weaken (take_all-Taken at rest _) (λ _ d' h. (
      (λ id p. h.0 id (taken_before id r.id at d.webhook.outbox p)),
      (h.0 r.id (taken_now r.id at d.webhook.outbox), h.1),
    )))

-- A successful claim leaves every row of its batch in status processing, so that no later claim
-- finds it due before it is requeued or retried.
pub claim_outbox_batch-IsProcessing :
    (limit : ℕ) (d : Db)
    → From d
        (claim_outbox_batch limit)
        (λ batch d'. All (λ (r : OutboxRow). IsProcessing r.id d') batch)
unfolding claim_outbox_batch claim_outbox_tx
claim_outbox_batch-IsProcessing limit d = From-in_tx _ (
    From-now-then λ at.
      From-query-then _
        λ batch e. From-call (take_all-Taken at batch d) λ _ d' h. From-pure batch h.1)

take_all-runs :
    (at : ℕ) (batch : List OutboxRow) (w : World Db)
    → w.faults ≡ []
    → ((take_all at batch w).0 ≡ ok tt) × ((take_all at batch w).1.faults ≡ [])
unfolding take_all ◌>>=◌
take_all-runs at [] w calm = (refl, calm)
take_all-runs at (r ∷ rest) w calm = rw calm (take_all-runs at rest _ refl)

pub claim_outbox_batch-batch :
    (limit : ℕ) (w : World Db)
    → w.faults ≡ []
    → (claim_outbox_batch limit w).0
      ≡ ok (take limit (reverse (select (is_due w.clock) w.db.webhook.outbox)))
unfolding claim_outbox_batch claim_outbox_tx ◌>>=◌
claim_outbox_batch-batch limit w calm =
    let batch = take limit (reverse (select (is_due w.clock) w.db.webhook.outbox)) in
    let runs = take_all-runs w.clock batch (record w { faults = [] }) refl in
    rw (calm, runs.0, runs.1) refl
