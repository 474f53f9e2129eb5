-- ===== src/Indexer/GapScan/Pending.antt =====
-- A missing block gets a pending header, from which the workers sync it.
use gin_demo.Prelude.{
  any-update_where, ℕ, zero, suc, ◌+◌, ◌-◌, ◌≤◌, ◌<◌, ◌≡◌, refl, Bool, true, ◌⊎◌, inl, inr, none,
  some, List, [], ◌∷◌, ◌++◌, ◌==◌, length, any, find_first, arith, Bool-cases, sym, ◌∙◌,
}
use gin_demo.Prelude.Text.{Text}
use gin_demo.Sql.{World, ok}
use gin_demo.Sql.Runs.{
  Runs, returned, Runs-pure, Runs-call, Runs-exec, Runs-weaken, Runs-attempt, Runs-now-then,
  Runs-memory-then, Runs-query-then, Runs-lift-then, Runs-choose, Runs-ignore,
}
use gin_demo.Schema.{Db}
use gin_demo.Indexer.Types.{PendingHeader, BlockRow}
use gin_demo.Indexer.Node.{Node}
use gin_demo.Indexer.Engine.{Engine}
use gin_demo.Indexer.Store.{
  is_header, with_header, is_live_at, or_default, enqueue_pending_header, load_checkpoint,
}
use gin_demo.Indexer.Store.Queries.{is_live_within, synced_blocks, map_synced_blocks_in_range}
use gin_demo.Indexer.Store.Logs.{insert_gap_scan_audit}
use gin_demo.Indexer.GapScan.{
  Found, Sight, sight, window_start, scan_window, enqueue_found, report, run_gap_scan, hash_of,
}
use gin_demo.Indexer.GapScan.Scan.{is_missing, missing_in, bad_in, scan-all}

-- a pending header of the number
abbrev pub IsPending : ℕ → Db → Type 0
IsPending n db = any (is_header n) db.indexer.pending_headers ≡ true

with_header-new :
    (num at : ℕ) (hash : Text) (headers : List PendingHeader)
    → any (is_header num) (with_header num hash at headers) ≡ true
with_header-new num at hash headers = elim (Bool-cases (any (is_header num) headers)) [
  | inl there ↦ rw there (
      any-update_where (is_header num) (is_header num)
        (λ h. record h { block_hash = hash; enqueued_at = at }) headers (λ h. refl)
      ∙ there)
  | inr fresh ↦ rw fresh (ground arith)
]

with_header-old :
    (n num at : ℕ) (hash : Text) (headers : List PendingHeader)
    → any (is_header n) headers ≡ true
    → any (is_header n) (with_header num hash at headers) ≡ true
with_header-old n num at hash headers h = elim (Bool-cases (any (is_header num) headers)) [
  | inl there ↦ rw there (
      any-update_where (is_header n) (is_header num)
        (λ x. record x { block_hash = hash; enqueued_at = at }) headers (λ x. refl)
      ∙ h)
  | inr fresh ↦ rw fresh (ground arith)
]

queued :
    (n i at : ℕ) (hash : Text) (ns : List ℕ) (d : Db)
    → (IsPending n d) ⊎ (any (λ j. j == n) (i ∷ ns) ≡ true)
    → (any (is_header n) (with_header i hash at d.indexer.pending_headers) ≡ true)
      ⊎ (any (λ j. j == n) ns ≡ true)
queued n i at hash ns d (inl there) =
    inl (with_header-old n i at hash d.indexer.pending_headers there)
queued n i at hash ns d (inr listed) = elim (Bool-cases (i == n)) [
  | inl hit ↦
      let same : i ≡ n = ground arith in
      inl (rw (sym same) (with_header-new i at hash d.indexer.pending_headers))
  | inr miss ↦ inr (rw miss at listed)
]

-- Every number in the list is pending in the end, and what was pending stays so.
enqueue_found-IsPending :
    (e : Engine) (later : Node) (ns : List ℕ) (n : ℕ) (d : Db)
    → (IsPending n d) ⊎ (any (λ i. i == n) ns ≡ true)
    → Runs d (enqueue_found e later ns) (λ _ d'. IsPending n d')
unfolding enqueue_found enqueue_pending_header
enqueue_found-IsPending e later [] n d (inl there) = Runs-pure 0 there
enqueue_found-IsPending e later [] n d (inr there) = cc
enqueue_found-IsPending e later (i ∷ ns) n d h =
    let hash = hash_of (later.block_by_number i) in
    Runs-call {R = λ r d'. (r ≡ ok tt) × ((IsPending n d') ⊎ (any (λ j. j == n) ns ≡ true))}
      (Runs-weaken
        (Runs-attempt {R = λ _ d'. (IsPending n d') ⊎ (any (λ j. j == n) ns ≡ true)}
          (Runs-now-then λ at. Runs-exec _ refl (queued n i at hash ns d h)))
        λ r d' p. (p.1, p.2))
      λ r d1 p. rw (p.0) (
        Runs-memory-then _ _ (
          Runs-call {R = λ _ d'. IsPending n d'} (enqueue_found-IsPending e later ns n _ (p.1))
            λ more d2 q. Runs-pure _ q))

report-IsPending :
    (e : Engine) (later : Node) (start head : ℕ) (found : Found) (n : ℕ) (d : Db)
    → any (λ i. i == n) (found.gaps ++ found.mismatches) ≡ true
    → Runs d (report e later start head found) (λ _ d'. IsPending n d')
unfolding report insert_gap_scan_audit
report-IsPending e later start head found n d listed =
    Runs-call {R = λ _ d'. IsPending n d'}
      (enqueue_found-IsPending e later (found.gaps ++ found.mismatches) n d (inr listed))
      λ count d1 p.
        Runs-now-then
          λ at. Runs-memory-then _ _ (Runs-ignore (Runs-now-then λ at2. Runs-exec _ refl p))

any-append : (test : ℕ → Bool) (xs ys : List ℕ) → any test xs ≡ true → any test (xs ++ ys) ≡ true
any-append test [] ys h = cc
any-append test (x ∷ xs) ys h = ground (arith, any-append test xs ys)

listed-missing :
    (see : ℕ → Sight) (start count n : ℕ)
    → start ≤ n
    → n < start + count
    → is_missing (see n) ≡ true
    → any (λ i. i == n) (missing_in see start count) ≡ true
listed-missing see start zero n low high h = absurd (omega arith)
listed-missing see start (suc count) n low high h = elim (Bool-cases (start == n)) [
  | inl here ↦
      let same : start ≡ n = ground arith in
      let hit : is_missing (see start) ≡ true = rw same h in rw (hit, here) refl
  | inr further ↦
      let tail = listed-missing see (suc start) count n (ground arith) (omega arith) h in
      elim (Bool-cases (is_missing (see start))) [
        | inl hit ↦ rw (hit, tail) (ground arith)
        | inr miss ↦ rw miss tail
      ]
]

find_first-within :
    (from to n : ℕ) (rows : List BlockRow)
    → find_first (is_live_at n) rows ≡ none
    → find_first (is_live_within from to n) rows ≡ none
find_first-within from to n [] h = refl
find_first-within from to n (b ∷ rows) h = elim (Bool-cases (is_live_at n b)) [
  | inl hit ↦ cc (rw hit at h)
  | inr miss ↦ rw miss (find_first-within from to n rows (rw miss at h))
]

-- the window of a scan
abbrev pub start_of : Engine → ℕ → Db → ℕ
start_of e head d =
    window_start e.hash_verify_window ((or_default d.indexer.checkpoint).last_block_number) head

abbrev pub seen_in : Engine → Node → ℕ → Db → ℕ → Sight
seen_in e node head d = sight node (synced_blocks (start_of e head d) head d)

-- how many blocks of the window are missing or have another hash
abbrev pub faulty : Engine → Node → ℕ → Db → ℕ
faulty e node head d =
    let start = start_of e head d in
    length (missing_in (seen_in e node head d) start (suc head - start))
    + length (bad_in (seen_in e node head d) start (suc head - start))

run_gap_scan-Runs :
    (e : Engine) (node later : Node) (head n : ℕ) (d : Db)
    → node.block_number ≡ some head
    → start_of e head d ≤ n
    → n ≤ head
    → find_first (is_live_at n) d.indexer.blocks ≡ none
    → faulty e node head d < e.batch_size
    → Runs d (run_gap_scan e node later) (λ _ d'. IsPending n d')
unfolding run_gap_scan load_checkpoint map_synced_blocks_in_range scan_window
run_gap_scan-Runs e node later head n d at_head low high absent few =
    let start = start_of e head d in
    let all = scan-all e.batch_size (seen_in e node head d) (suc head - start) start few in
    let found = scan_window e node (synced_blocks start head d) start head in
    let gone = find_first-within start head n d.indexer.blocks absent in
    let listed =
      listed-missing (seen_in e node head d) start (suc head - start) n low (omega arith)
        (rw gone refl) in
    Runs-lift-then _ _ (rw at_head refl) (
      Runs-query-then _ _ refl (
        Runs-choose (λ past. absurd (ground arith))
          λ _. Runs-query-then _ _ refl (
            report-IsPending e later start head _ n d
              (any-append (λ i. i == n) found.gaps found.mismatches (rw (all.0) listed)))))

-- With no failing statement, a gap scan gives a pending header to every missing block of its window:
-- a block up to the head that the tables do not have, or have as orphaned, if fewer blocks of the
-- window are missing or have another hash than the batch says.
pub run_gap_scan-IsPending :
    (e : Engine) (node later : Node) (head n : ℕ) (w : World Db)
    → w.faults ≡ []
    → node.block_number ≡ some head
    → start_of e head w.db ≤ n
    → n ≤ head
    → find_first (is_live_at n) w.db.indexer.blocks ≡ none
    → faulty e node head w.db < e.batch_size
    → IsPending n (run_gap_scan e node later w).1.db
run_gap_scan-IsPending e node later head n w calm at_head low high absent few =
    (returned (run_gap_scan-Runs e node later head n w.db at_head low high absent few) w refl
      calm).2
