-- ===== src/Indexer/OutboxWorker/Outcome.antt =====
-- What becomes of an outbox item.
use gin_demo.Prelude.{
  ℕ, suc, ◌+◌, ◌*◌, ◌≡◌, refl, Bool, List, [], ◌∷◌, ◌==◌, ◌||◌, All, leb, if◌then◌else◌,
  update_where, arith, Bool-cases, inl, inr,
}
use gin_demo.Prelude.Text.{Text, codes, text_eq}
use gin_demo.Sql.{Result, ok, err, unknown_event, attempt, ◌>>=◌}
use gin_demo.Sql.Runs.{Runs, Runs-call, Runs-exec, Runs-now-then}
use gin_demo.Schema.{Db}
use gin_demo.Indexer.Types.{OutboxRow, OutboxStatus}
use gin_demo.Indexer.Engine.{Engine}
use gin_demo.Indexer.Store.Outbox.{mark_outbox_done, mark_outbox_retry}
use gin_demo.Indexer.OutboxWorker.{fill_cache, settle_item, process_outbox}

abbrev pub is_known : Text → Bool
is_known event =
    text_eq event (codes "block_cached")
    || text_eq event (codes "transfer_cached")
    || text_eq event (codes "event_cached")

-- How the row of the item ends at the time `at`: done if its type is known; else the attempt is
-- counted, and the row is failed for good once the attempts reach the limit, pending before.
abbrev pub Settled : Engine → OutboxRow → ℕ → OutboxRow → Type 0
Settled e item at x =
    if is_known item.event_type
    then x.status ≡ OutboxStatus.done
    else ((x.retry_count ≡ suc item.retry_count)
        × (x.status ≡ (
            if leb e.max_retries (suc item.retry_count)
            then OutboxStatus.failed
            else OutboxStatus.pending))
        × (x.next_retry_at ≡ at + 1000 * suc item.retry_count))

-- what `fill_cache` answers, as a value
abbrev pub filled : OutboxRow → Result (Unit {0})
filled item = if is_known item.event_type then ok tt else err unknown_event

fill_cache-filled :
    (e : Engine) (item : OutboxRow) (d : Db)
    → Runs d (attempt (fill_cache e item)) (λ r d'. (r ≡ filled item) × (d'.indexer ≡ d.indexer))
unfolding fill_cache attempt ◌>>=◌
fill_cache-filled e item d = record {
  at = λ w same calm. elim (Bool-cases (text_eq item.event_type (codes "block_cached"))) [
    | inl block ↦ rw block (calm, (refl, rw same refl))
    | inr other ↦
        elim (Bool-cases (
          text_eq item.event_type (codes "transfer_cached")
          || text_eq item.event_type (codes "event_cached"))) [
            | inl event ↦ rw (other, event) (calm, (refl, rw same refl))
            | inr unknown ↦ rw (other, unknown) (calm, (refl, rw same refl))
          ]
  ];
}

changed :
    (P : OutboxRow → Type 0) (id : ℕ) (f : OutboxRow → OutboxRow) (rows : List OutboxRow)
    → ((x : OutboxRow) → P (f x))
    → All (λ (x : OutboxRow). x.id ≡ id → P x) (update_where (λ r. r.id == id) f rows)
changed P id f [] h = tt
changed P id f (x ∷ rows) h = elim (Bool-cases (x.id == id)) [
  | inl hit ↦ rw hit ((λ _. h x), changed P id f rows h)
  | inr miss ↦
      rw miss ((λ e. let same : x.id ≡ id = e in ground (arith, same)), changed P id f rows h)
]

settle_item-Settled :
    (e : Engine) (item : OutboxRow) (d : Db)
    → Runs d (settle_item e item (filled item)) (λ _ d'.
      (at : ℕ) × All (λ (x : OutboxRow). x.id ≡ item.id → Settled e item at x) d'.indexer.outbox)
unfolding mark_outbox_done mark_outbox_retry
settle_item-Settled e item d = elim (Bool-cases (is_known item.event_type)) [
  | inl known ↦ rw known (
      Runs-now-then λ at.
        Runs-exec _ refl
          (at, changed (λ x. x.status ≡ OutboxStatus.done) item.id _ d.indexer.outbox (λ x. refl)))
  | inr unknown ↦ rw unknown (
      Runs-now-then λ at. Runs-now-then λ at2. Runs-exec _ refl (
        at,
        changed
            (λ x.
              (x.retry_count ≡ suc item.retry_count)
              × (x.status ≡ (
                  if leb e.max_retries (suc item.retry_count)
                  then OutboxStatus.failed
                  else OutboxStatus.pending))
              × (x.next_retry_at ≡ at + 1000 * suc item.retry_count))
            item.id _ d.indexer.outbox (λ x. (refl, refl, refl)),
      ))
]

-- With no failing statement, an item of a known type is done after one attempt. One of an unknown
-- type has its attempt counted, and is failed for good exactly when the attempts reach the limit;
-- before, it is pending again, a second later for each attempt.
pub process_outbox-Settled :
    (e : Engine) (item : OutboxRow) (d : Db)
    → Runs d (process_outbox e item) (λ _ d'.
      (at : ℕ) × All (λ (x : OutboxRow). x.id ≡ item.id → Settled e item at x) d'.indexer.outbox)
unfolding process_outbox
process_outbox-Settled e item d =
    Runs-call (fill_cache-filled e item d) λ r d1 p. rw (p.0) (settle_item-Settled e item d1)
