-- ===== src/Webhook/Outbox/Oldest.antt =====
-- Which rows a claim takes when there are more than the limit.
use gin_demo.Prelude.{
  subst, ℕ, zero, suc, ◌≤◌, ◌<◌, ◌≡◌, refl, Bool, true, false, ◌||◌, List, [], ◌∷◌, ◌==◌, All, any,
  arith, take, select, length, find_first, some, ◌⊎◌, inl, inr, Bool-cases,
}
use mathlib.Core.List.{reverse, reverse_aux}
use gin_demo.Sql.{Result, ok, err, World}
use gin_demo.Sql.Rules.{Post}
use gin_demo.Schema.{Db}
use gin_demo.Webhook.Types.{OutboxRow, OutboxStatus, outbox_tag}
use gin_demo.Webhook.Outbox.{claim_outbox_batch, is_due}
use gin_demo.Webhook.Outbox.Claiming.{
  IsProcessing, claim_outbox_batch-IsProcessing, claim_outbox_batch-batch,
}

-- The row waits for a delivery that is due.
abbrev pub IsWaiting : ℕ → OutboxRow → Type 0
IsWaiting at r = (r.status ≡ OutboxStatus.pending) × (r.next_retry_at ≤ at)

is_pending :
    (s : OutboxStatus)
    → (outbox_tag s == outbox_tag OutboxStatus.pending) ≡ true
    → s ≡ OutboxStatus.pending
is_pending OutboxStatus.pending h = refl
is_pending OutboxStatus.processing h = cc
is_pending OutboxStatus.done h = cc
is_pending OutboxStatus.failed h = cc

due-IsWaiting : (at : ℕ) (r : OutboxRow) → is_due at r ≡ true → IsWaiting at r
due-IsWaiting at r h = (is_pending r.status (ground (arith, h)), ground (arith, h))

waiting-due : (at : ℕ) (r : OutboxRow) → IsWaiting at r → is_due at r ≡ true
waiting-due at r (status, early) = rw status (ground (arith, early))

-- The ids fall along the table, as they do when each new row gets the next id.
abbrev pub IsNewestFirst : List OutboxRow → Type 0
IsNewestFirst [] = Unit
IsNewestFirst (x ∷ rows) = All (λ (y : OutboxRow). y.id < x.id) rows × IsNewestFirst rows

-- The ids rise along the list.
abbrev IsOldestFirst : List OutboxRow → Type 0
IsOldestFirst [] = Unit
IsOldestFirst (x ∷ rows) = All (λ (y : OutboxRow). x.id < y.id) rows × IsOldestFirst rows

abbrev pub has_id : ℕ → List OutboxRow → Bool
has_id id rows = any (λ x. x.id == id) rows

-- The row itself is stored.
abbrev pub IsStored : List OutboxRow → OutboxRow → Type 0
IsStored rows b = find_first (λ x. x.id == b.id) rows ≡ some b

module _ (P Q : OutboxRow → Type 0) where
  All-map : (rows : List OutboxRow) → ((r : OutboxRow) → P r → Q r) → All P rows → All Q rows
  All-map [] f h = tt
  All-map (r ∷ rows) f h = (f r h.0, All-map rows f h.1)

  All-both : (rows : List OutboxRow) → All P rows → All Q rows → All (λ r. P r × Q r) rows
  All-both [] h k = tt
  All-both (r ∷ rows) h k = ((h.0, k.0), All-both rows h.1 k.1)

module _ (P : OutboxRow → Type 0) where
  All-take : (n : ℕ) (rows : List OutboxRow) → All P rows → All P (take n rows)
  All-take zero rows h = tt
  All-take (suc n) [] h = tt
  All-take (suc n) (r ∷ rows) h = (h.0, All-take n rows h.1)

  All-reverse_aux :
      (rows acc : List OutboxRow) → All P rows → All P acc → All P (reverse_aux rows acc)
  All-reverse_aux [] acc h k = k
  All-reverse_aux (r ∷ rows) acc h k = All-reverse_aux rows (r ∷ acc) h.1 (h.0, k)

  All-select :
      (test : OutboxRow → Bool) (rows : List OutboxRow) → All P rows → All P (select test rows)
  All-select test [] h = tt
  All-select test (r ∷ rows) h = elim (Bool-cases (test r)) [
    | inl hit ↦ rw hit (h.0, All-select test rows h.1)
    | inr miss ↦ rw miss (All-select test rows h.1)
  ]

selected :
    (test : OutboxRow → Bool) (rows : List OutboxRow) → All (λ r. test r ≡ true) (select test rows)
selected test [] = tt
selected test (r ∷ rows) = elim (Bool-cases (test r)) [
  | inl hit ↦ rw hit (hit, selected test rows)
  | inr miss ↦ rw miss (selected test rows)
]

select-IsNewestFirst :
    (test : OutboxRow → Bool) (rows : List OutboxRow)
    → IsNewestFirst rows
    → IsNewestFirst (select test rows)
select-IsNewestFirst test [] h = tt
select-IsNewestFirst test (r ∷ rows) h = elim (Bool-cases (test r)) [
  | inl hit ↦ rw hit (All-select _ test rows h.0, select-IsNewestFirst test rows h.1)
  | inr miss ↦ rw miss (select-IsNewestFirst test rows h.1)
]

rows-IsStored : (rows : List OutboxRow) → IsNewestFirst rows → All (IsStored rows) rows
rows-IsStored [] h = tt
rows-IsStored (x ∷ rows) (older, rest) = (
  (let same : (x.id == x.id) ≡ true = ground arith in rw same refl),
  All-map _ _ rows
      (λ b (stored, low).
        let other : (x.id == b.id) ≡ false = ground (arith, low) in rw other stored)
      (All-both _ _ rows (rows-IsStored rows rest) older),
)

reverse_aux-IsOldestFirst :
    (rows acc : List OutboxRow)
    → IsNewestFirst rows
    → IsOldestFirst acc
    → All (λ (y : OutboxRow). All (λ (z : OutboxRow). y.id < z.id) acc) rows
    → IsOldestFirst (reverse_aux rows acc)
reverse_aux-IsOldestFirst [] acc h k below = k
reverse_aux-IsOldestFirst (r ∷ rows) acc (older, h) k below =
    reverse_aux-IsOldestFirst rows (r ∷ acc) h (below.0, k) (All-both _ _ rows older below.1)

nothing_after :
    (rows : List OutboxRow) → All (λ (y : OutboxRow). All (λ (z : OutboxRow). y.id < z.id) []) rows
nothing_after [] = tt
nothing_after (r ∷ rows) = (tt, nothing_after rows)

has_id-reverse_aux :
    (id : ℕ) (rows acc : List OutboxRow)
    → has_id id rows || has_id id acc ≡ true
    → has_id id (reverse_aux rows acc) ≡ true
has_id-reverse_aux id [] acc h = h
has_id-reverse_aux id (r ∷ rows) acc h = has_id-reverse_aux id rows (r ∷ acc) (ground (arith, h))

kept_id :
    (test : OutboxRow → Bool) (x : OutboxRow) (rows : List OutboxRow) (id : ℕ)
    → has_id id (select test rows) ≡ true
    → has_id id (select test (x ∷ rows)) ≡ true
kept_id test x rows id h = elim (Bool-cases (test x)) [
  | inl hit ↦ rw hit (ground (arith, h))
  | inr miss ↦ rw miss h
]

chosen :
    (test : OutboxRow → Bool) (x : OutboxRow) (rows : List OutboxRow)
    → test x ≡ true
    → has_id x.id (select test (x ∷ rows)) ≡ true
chosen test x rows hit = let here : (x.id == x.id) ≡ true = ground arith in rw (hit, here) refl

has_id-select :
    (test : OutboxRow → Bool) (rows : List OutboxRow)
    → All (λ (r : OutboxRow). test r ≡ true → has_id r.id (select test rows) ≡ true) rows
has_id-select test [] = tt
has_id-select test (x ∷ rows) = (
  chosen test x rows,
  All-map (λ r. test r ≡ true → has_id r.id (select test rows) ≡ true)
      (λ r. test r ≡ true → has_id r.id (select test (x ∷ rows)) ≡ true) rows
      (λ r found is. kept_id test x rows r.id (found is)) (has_id-select test rows),
)

after_first :
    (low id : ℕ) (rows : List OutboxRow)
    → All (λ (y : OutboxRow). low < y.id) rows
    → has_id id rows ≡ true
    → low < id
after_first low id [] h found = cc
after_first low id (r ∷ rows) h found = elim (Bool-cases (r.id == id)) [
  | inl hit ↦ ground (arith, h.0, hit)
  | inr miss ↦ after_first low id rows h.1 (rw miss at found)
]

-- The row with the id is taken, or the limit is reached by older ones.
abbrev pub InTurn : ℕ → List OutboxRow → ℕ → Type 0
InTurn limit batch id =
    (has_id id batch ≡ true) ⊎ ((length batch ≡ limit) × All (λ (b : OutboxRow). b.id < id) batch)

take-InTurn :
    (limit id : ℕ) (rows : List OutboxRow)
    → IsOldestFirst rows
    → has_id id rows ≡ true
    → InTurn limit (take limit rows) id
take-InTurn zero id rows h found = inr (refl, tt)
take-InTurn (suc limit) id [] h found = cc
take-InTurn (suc limit) id (r ∷ rows) (later, h) found = elim (Bool-cases (r.id == id)) [
  | inl hit ↦ inl (rw hit refl)
  | inr miss ↦
      let there : has_id id rows ≡ true = rw miss at found in
      elim (take-InTurn limit id rows h there) [
        | inl taken ↦ inl (rw (miss, taken) refl)
        | inr (full, older) ↦
            inr (omega (arith, full), (after_first r.id id rows later there, older))
      ]
]

length-take_le : (n : ℕ) (rows : List OutboxRow) → length (take n rows) ≤ n
length-take_le zero rows = omega arith
length-take_le (suc n) [] = omega arith
length-take_le (suc n) (r ∷ rows) = omega (arith, length-take_le n rows)

-- Every waiting row is in its turn.
abbrev pub IsFair : ℕ → ℕ → List OutboxRow → List OutboxRow → Type 0
IsFair at limit rows batch = All (λ (r : OutboxRow). IsWaiting at r → InTurn limit batch r.id) rows

ended :
    (Q : List OutboxRow → Db → Type 0) {batch : List OutboxRow}
    (r : Result (List OutboxRow) × World Db)
    → r.0 ≡ ok batch
    → Post Q r
    → Q batch r.1.db
ended Q (ok b, w) e h = let same : b ≡ _ = cc in subst (λ x. Q x w.db) same h
ended Q (err x, w) e h = cc

module _ (at limit : ℕ) (rows : List OutboxRow) (newest : IsNewestFirst rows) where
  batch-IsStored :
      All (λ b. IsStored rows b × IsWaiting at b) (take limit (reverse (select (is_due at) rows)))
  batch-IsStored = All-take _ limit _ (
      All-reverse_aux _ (select (is_due at) rows) []
        (All-both _ _ (select (is_due at) rows)
          (All-select _ (is_due at) rows (rows-IsStored rows newest))
          (All-map _ _ (select (is_due at) rows) (due-IsWaiting at) (selected (is_due at) rows)))
        tt)

  batch-IsFair : IsFair at limit rows (take limit (reverse (select (is_due at) rows)))
  batch-IsFair =
      let oldest =
        reverse_aux-IsOldestFirst (select (is_due at) rows) []
          (select-IsNewestFirst (is_due at) rows newest) tt (nothing_after _) in
      All-map _ _ rows
        (λ r found waits. take-InTurn limit r.id _ oldest (
          has_id-reverse_aux r.id (select (is_due at) rows) []
            (ground (arith, found (waiting-due at r waits)))))
        (has_id-select (is_due at) rows)

-- With no failing statement and the ids falling along the table, a claim answers a batch of stored
-- rows, as many as the limit at most, that are pending and whose next attempt is due; every such row
-- of the table is in the batch, or the batch is full and all its rows are older; and the rows of the
-- batch are in status processing afterwards.
pub claim_outbox_batch-oldest :
    (limit : ℕ) (w : World Db)
    → w.faults ≡ []
    → IsNewestFirst w.db.webhook.outbox
    → (batch : List OutboxRow) × ((claim_outbox_batch limit w).0 ≡ ok batch)
      × (length batch ≤ limit)
      × All (λ (b : OutboxRow). IsStored w.db.webhook.outbox b × IsWaiting w.clock b) batch
      × IsFair w.clock limit w.db.webhook.outbox batch
      × All (λ (b : OutboxRow). IsProcessing b.id (claim_outbox_batch limit w).1.db) batch
claim_outbox_batch-oldest limit w calm newest =
    let rows = w.db.webhook.outbox in
    let answers = claim_outbox_batch-batch limit w calm in
    (
      take limit (reverse (select (is_due w.clock) rows)),
      answers,
      length-take_le limit _,
      batch-IsStored w.clock limit rows newest,
      batch-IsFair w.clock limit rows newest,
      ended (λ batch d. All (λ (b : OutboxRow). IsProcessing b.id d) batch)
          (claim_outbox_batch limit w) answers
          ((claim_outbox_batch-IsProcessing limit w.db).at w refl),
    )
