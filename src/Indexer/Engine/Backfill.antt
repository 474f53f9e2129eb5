-- ===== src/Indexer/Engine/Backfill.antt =====
-- What a backfill puts into the channel: the blocks after the checkpoint, and what happens when there
-- are none.
use gin_demo.Prelude.{
  ℕ, zero, suc, ◌+◌, ◌-◌, ◌%◌, ◌^◌, ◌≤◌, ◌<◌, ◌≡◌, refl, some, List, [], ◌∷◌, ◌++◌, leb, ltb,
  if◌then◌else◌, length, length-append, take, arith, range, append-nil, append-append, take-nil,
  Bool-cases, inl, inr, ◌∙◌,
}
use gin_demo.Sql.{World, ◌>>=◌}
use gin_demo.Schema.{Db}
use gin_demo.Indexer.Node.{Node}
use gin_demo.Indexer.Store.{load_checkpoint, or_default}
use gin_demo.Indexer.Engine.{
  Engine, room, send_range, run_backfill, backfill_start, backfill_end, backfill_jobs,
}

take_none :
    (capacity : ℕ) (jobs more : List ℕ)
    → capacity ≤ length jobs
    → jobs ++ take (capacity - length jobs) more ≡ jobs
take_none capacity jobs more full =
    let none_left : capacity - length jobs ≡ 0 = omega arith in rw none_left (append-nil jobs)

take_one :
    (capacity n : ℕ) (jobs more : List ℕ)
    → length jobs < capacity
    → (jobs ++ n ∷ []) ++ take (capacity - length (jobs ++ n ∷ [])) more
      ≡ jobs ++ take (capacity - length jobs) (n ∷ more)
take_one capacity n jobs more free =
    let left : capacity - length jobs ≡ suc (capacity - length (jobs ++ n ∷ [])) =
      omega (arith, length-append jobs (n ∷ [])) in
    rw left (append-append jobs (n ∷ []) (take (capacity - length (jobs ++ n ∷ [])) more))

send_range-range :
    (capacity rounds n end : ℕ) (jobs : List ℕ)
    → capacity < rounds + length jobs
    → end + 1 < 2 ^ 64
    → send_range capacity rounds n end jobs
      ≡ jobs ++ take (capacity - length jobs) (range n (suc end - n))
unfolding send_range
send_range-range capacity zero n end jobs enough small =
    rw (take_none capacity jobs (range n (suc end - n)) (omega arith)) refl
send_range-range capacity (suc rounds) n end jobs enough small = elim (Bool-cases (leb n end)) [
  | inr past ↦
      let nothing : suc end - n ≡ 0 = ground arith in
      rw (past, nothing) (rw (take-nil (capacity - length jobs), append-nil jobs) refl)
  | inl due ↦ elim (Bool-cases (room capacity jobs)) [
    | inr full ↦ rw (due, full, take_none capacity jobs (range n (suc end - n)) (ground arith)) refl
    | inl free ↦
        let next : (n + 1) % 2 ^ 64 ≡ suc n = ground arith in
        let count : suc end - n ≡ suc (suc end - suc n) = ground arith in
        rw (due, free, next, count)
          (send_range-range capacity rounds (suc n) end (jobs ++ n ∷ [])
              (omega (arith, length-append jobs (n ∷ []))) small
            ∙ take_one capacity n jobs (range (suc n) (suc end - suc n)) (ground arith))
  ]
]

abbrev last_of : World Db → ℕ
last_of w = (or_default w.db.indexer.checkpoint).last_block_number

run_backfill-jobs :
    (e : Engine) (node : Node) (w : World Db) (head : ℕ)
    → w.faults ≡ []
    → node.block_number ≡ some head
    → (run_backfill e node w).1.db.engine.jobs ≡ backfill_jobs e (last_of w) head w.db.engine.jobs
unfolding run_backfill load_checkpoint ◌>>=◌
run_backfill-jobs e node w head calm at_head = rw (calm, at_head) refl

-- how many blocks one backfill is due to send when the head is `ahead` blocks past its start
abbrev backfill_count : ℕ → ℕ → ℕ
backfill_count batch ahead = if ltb batch ahead then batch else suc ahead

backfill_end-past :
    (batch head : ℕ)
    → 0 < batch
    → head + batch + 1 < 2 ^ 64
    → backfill_end batch (suc head) head ≡ head + batch
unfolding backfill_end
backfill_end-past batch head positive small = ground arith

backfill_start-past : (last : ℕ) → 0 < last → last + 1 < 2 ^ 64 → backfill_start last ≡ suc last
unfolding backfill_start
backfill_start-past last positive small = ground arith

-- the first block that is not synced yet, after the last one that is; 0 stands for none
abbrev pub first_unsynced : ℕ → ℕ
first_unsynced zero = 0
first_unsynced (suc last) = suc (suc last)

-- The blocks that are due from `first` on: a batch of them if the head is more than a batch away, else
-- all up to the head.
abbrev pub due_blocks : ℕ → ℕ → ℕ → List ℕ
due_blocks batch first head =
    if ltb batch (head - first) then range first batch else range first (suc (head - first))

-- With no failing statement and the checkpoint at the head, a backfill sends the blocks after the
-- head, a batch of them, which the chain does not have yet.
pub run_backfill-past_head :
    (e : Engine) (node : Node) (w : World Db) (head : ℕ)
    → w.faults ≡ []
    → node.block_number ≡ some head
    → last_of w ≡ head
    → 0 < head
    → 0 < e.batch_size
    → head + e.batch_size + 1 < 2 ^ 64
    → (run_backfill e node w).1.db.engine.jobs
      ≡ w.db.engine.jobs
        ++ take (e.jobs_capacity - length w.db.engine.jobs) (range (suc head) e.batch_size)
run_backfill-past_head e node w head calm at_head at_last positive batch small =
    let start = backfill_start-past head positive (omega arith) in
    let end = backfill_end-past e.batch_size head batch small in
    let count : suc (head + e.batch_size) - suc head ≡ e.batch_size = omega arith in
    run_backfill-jobs e node w head calm at_head
    ∙ rw (at_last, start, end)
        (send_range-range e.jobs_capacity (suc e.jobs_capacity) (suc head) (head + e.batch_size)
            w.db.engine.jobs (omega arith) (omega arith)
          ∙ rw count refl)
