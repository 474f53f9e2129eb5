-- ===== src/Indexer/GapScan.antt =====
-- internal/indexer/gapscan.go: blocks that are missing or whose hash is not the node's are found and
-- sent to be synced again. The node may answer otherwise when it is asked a second time: `later`
-- stands for its answers after the scan.
pub mod Scan
pub mod Pending
pub mod Hash
use gin_demo.Prelude.{
  ℕ, zero, suc, ◌+◌, ◌-◌, ◌%◌, ◌^◌, Bool, true, false, not, ◌&&◌, ◌||◌, Option, none, some, List,
  [], ◌∷◌, ◌++◌, ◌==◌, leb, ltb, if◌then◌else◌, length,
}
use gin_demo.Prelude.Text.{Text}
use gin_demo.Sql.{
  ok, node_error, pure, lift, ◌>>=◌, ◌>>◌, now, guard, ignore, attempt, memory, choose, Result, err,
}
use gin_demo.Schema.{Db, Action}
use gin_demo.Indexer.Types.{BlockMeta, EngineState, GapScanAudit}
use gin_demo.Indexer.Store.{enqueue_pending_header, load_checkpoint}
use gin_demo.Indexer.Store.Queries.{map_synced_blocks_in_range}
use gin_demo.Indexer.Store.Logs.{insert_gap_scan_audit}
use gin_demo.Indexer.Node.{Node, Block}
use gin_demo.Indexer.Engine.{Engine, answered, room, send, with_jobs}

-- `trim0x`
unfoldable pub trim_0x : Text → Text
trim_0x [] = []
trim_0x (c ∷ []) = c ∷ []
trim_0x (c ∷ d ∷ s) = if c == b'0' && (d == b'x' || d == b'X') then s else c ∷ d ∷ s

-- `ca += 'a' - 'A'`, for A to F
abbrev pub lower_hex : ℕ → ℕ
lower_hex c = if leb b'A' c && leb c b'F' then c + 32 else c

-- `stringsEqualFold`
unfoldable pub strings_equal_fold : Text → Text → Bool
strings_equal_fold [] [] = true
strings_equal_fold [] (d ∷ t) = false
strings_equal_fold (c ∷ s) [] = false
strings_equal_fold (c ∷ s) (d ∷ t) = lower_hex c == lower_hex d && strings_equal_fold s t

-- `equalHash`
unfoldable pub equal_hash : Text → Text → Bool
unfolding trim_0x strings_equal_fold
equal_hash a b = strings_equal_fold (trim_0x a) (trim_0x b)

-- Where the scan of `runGapScan` starts: at the window below the head, or after the checkpoint if
-- that is lower.
unfoldable pub window_start : ℕ → ℕ → ℕ → ℕ
window_start window last head =
    let start = if ltb window head then head - window else 0 in
    let after = (last + 1) % 2 ^ 64 in if ltb 0 last && ltb after start then after else start

pub record Found : Type 0 where
  pub gaps : List ℕ
  pub mismatches : List ℕ

abbrev pub has_other_hash : BlockMeta → Option Block → Bool
has_other_hash meta none = false
has_other_hash meta (some blk) = not (equal_hash meta.hash blk.hash)

-- what the loop sees at a block number
pub data Sight : Type 0 where
  missing good bad : Sight

abbrev pub sight_of : Option BlockMeta → Option Block → Sight
sight_of none blk = Sight.missing
sight_of (some meta) blk = if has_other_hash meta blk then Sight.bad else Sight.good

-- a round of the loop of `runGapScan`, where `go` goes on with the next number
abbrev pub scan_at : ℕ → ℕ → Found → (Found → Found) → Sight → Found
scan_at limit n found go Sight.missing = go (record found { gaps = found.gaps ++ n ∷ [] })
scan_at limit n found go Sight.good = go found
scan_at limit n found go Sight.bad =
    let more = record found { mismatches = found.mismatches ++ n ∷ [] } in
    if leb limit (length more.gaps + length more.mismatches) then more else go more

-- the loop, with as many rounds as there are numbers to scan
unfoldable pub scan : ℕ → (ℕ → Sight) → ℕ → ℕ → Found → Found
scan limit see zero n found = found
scan limit see (suc rounds) n found =
    let go = scan limit see rounds (suc n) in
    if ltb (length found.gaps) limit then scan_at limit n found go (see n) else found

abbrev pub sight : Node → (ℕ → Option BlockMeta) → ℕ → Sight
sight node synced n = sight_of (synced n) (node.block_by_number n)

unfoldable pub scan_window : Engine → Node → (ℕ → Option BlockMeta) → ℕ → ℕ → Found
unfolding scan equal_hash
scan_window e node synced start head =
    scan e.batch_size (sight node synced) (suc head - start) start
      (record { gaps = []; mismatches = [] })

abbrev pub hash_of : Option Block → Text
hash_of none = []
hash_of (some blk) = blk.hash

abbrev pub one_if : Bool → ℕ
one_if true = 1
one_if false = 0

-- a send that answers whether it was taken
abbrev pub counted_send : Engine → ℕ → Db → ℕ × Db
counted_send e n db =
    (one_if (room e.jobs_capacity db.engine.jobs), with_jobs (send e.jobs_capacity n) db)

abbrev pub send_if_stored : Engine → ℕ → Result (Unit {0}) → Action ℕ
send_if_stored e n (err x) = pure 0
send_if_stored e n (ok done) = memory (counted_send e n)

-- the second loop of `runGapScan`: how many jobs were sent
unfoldable pub enqueue_found : Engine → Node → List ℕ → Action ℕ
enqueue_found e later [] = pure 0
enqueue_found e later (n ∷ rest) = do
  stored ← attempt (enqueue_pending_header n (hash_of (later.block_by_number n)))
  sent ← send_if_stored e n stored
  more ← enqueue_found e later rest
  pure (sent + more)

abbrev with_scan : ℕ → Found → ℕ → Db → Unit {0} × Db
with_scan at found enqueued db = (
  tt,
  record db {
    engine = record (db.engine) {
      last_gap_scan = at;
      last_gaps_found = length found.gaps;
      last_hash_mismatch = length found.mismatches;
      last_gaps_enqueued = enqueued;
    };
  },
)

-- what `runGapScan` does with the blocks it has found
unfoldable pub report : Engine → Node → ℕ → ℕ → Found → Action (Unit {0})
unfolding enqueue_found
report e later start head found = do
  enqueued ← enqueue_found e later (found.gaps ++ found.mismatches)
  at ← now
  memory (with_scan at found enqueued)
  ignore (
      insert_gap_scan_audit (record {
        head_block = head;
        scan_from = start;
        scan_to = head;
        gaps_found = length found.gaps;
        hash_mismatches = length found.mismatches;
        gaps_enqueued = enqueued;
        scanned_at = at;
      }))

-- `runGapScan`; an error is an early return
unfoldable pub run_gap_scan : Engine → Node → Node → Action (Unit {0})
unfolding window_start scan_window report
run_gap_scan e node later = do
  head ← lift (answered node.block_number)
  cp ← load_checkpoint
  let start = window_start e.hash_verify_window cp.last_block_number head
  choose (ltb head start) (pure tt) (do
    synced ← map_synced_blocks_in_range start head
    report e later start head (scan_window e node synced start head))
