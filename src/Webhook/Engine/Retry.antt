-- ===== src/Webhook/Engine/Retry.antt =====
-- What a failed delivery leaves in the outbox.
use gin_demo.Prelude.{
  if◌then◌else◌, leb, ℕ, suc, ◌+◌, ◌<◌, ◌≤◌, leb, ◌≡◌, refl, false, List, [], ◌∷◌, ◌==◌, All,
  update_where, arith, Bool-cases, inl, inr,
}
use gin_demo.Sql.{World, statement, ◌>>=◌}
use gin_demo.Schema.{Db}
use gin_demo.Webhook.Types.{OutboxRow, OutboxStatus}
use gin_demo.Webhook.Outbox.{as_retry, mark_outbox_retry}
use gin_demo.Webhook.Engine.{Settings, retry_limit, backoff, fail_item}

-- The row after its `n`-th failed delivery, at the time `at`.
abbrev pub Failed : Settings → ℕ → ℕ → OutboxRow → Type 0
Failed s n at x =
    (x.retry_count ≡ n)
    × (x.status ≡ (if leb (retry_limit s) n then OutboxStatus.failed else OutboxStatus.pending))
    × (at < x.next_retry_at)
    × (x.next_retry_at ≤ at + 30000)

delayed : (n at : ℕ) → (at < at + backoff (suc n)) × (at + backoff (suc n) ≤ at + 30000)
delayed n at = (omega arith, omega arith)

as_retry-Failed :
    (s : Settings) (n at : ℕ) (x : OutboxRow)
    → Failed s
        (suc n)
        at
        (as_retry (suc n) (at + backoff (suc n)) (leb (retry_limit s) (suc n)) at x)
as_retry-Failed s n at x = (refl, refl, (delayed n at).0, (delayed n at).1)

All-Failed :
    (s : Settings) (n at id : ℕ) (rows : List OutboxRow)
    → All
        (λ (x : OutboxRow). x.id ≡ id → Failed s (suc n) at x)
        (update_where
          (λ x. x.id == id)
          (as_retry (suc n) (at + backoff (suc n)) (leb (retry_limit s) (suc n)) at)
          rows)
All-Failed s n at id [] = tt
All-Failed s n at id (x ∷ rows) = elim (Bool-cases (x.id == id)) [
  | inl hit ↦ rw hit ((λ _. as_retry-Failed s n at x), All-Failed s n at id rows)
  | inr miss ↦
      rw miss ((λ e. let same : x.id ≡ id = e in ground (arith, same)), All-Failed s n at id rows)
]

-- A failed delivery whose statement goes through counts the attempt; the row is failed for good
-- exactly when the limit of attempts is reached, and is pending again before that, due later than
-- now and at most 30 seconds from now.
pub fail_item-Failed :
    (s : Settings) (item : OutboxRow) (w : World Db)
    → statement w.faults ≡ false
    → All
        (λ (x : OutboxRow). x.id ≡ item.id → Failed s (suc item.retry_count) w.clock x)
        (fail_item s item w).1.db.webhook.outbox
unfolding fail_item mark_outbox_retry ◌>>=◌
fail_item-Failed s item w sent =
    rw sent (All-Failed s item.retry_count w.clock item.id w.db.webhook.outbox)
