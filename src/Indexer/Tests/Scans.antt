-- ===== src/Indexer/Tests/Scans.antt =====
-- The theorems on the scan, the events and the lock at small inputs.
use gin_demo.Prelude.{if◌then◌else◌, ◌==◌, ℕ, ◌≡◌, refl, false, some, List, [], ◌∷◌, arith}
use gin_demo.Prelude.Text.{codes, text_eq, to_lower}
use gin_demo.Sql.{ok}
use gin_demo.Cache.{set_nx, get}
use gin_demo.Cache.Lock.{Attempt, after_attempts, set_nx-set_nx}
use gin_demo.Indexer.Events.{Log, WatchedContract, EventRegistry, ParsedEvent, parse_log}
use gin_demo.Indexer.GapScan.{Sight, scan, run_gap_scan}
use gin_demo.Indexer.GapScan.Scan.{scan-all}
use gin_demo.Indexer.GapScan.Pending.{IsPending, run_gap_scan-IsPending}
use gin_demo.Indexer.Engine.{Engine}
use gin_demo.Indexer.Tests.{engine, node, world_at}

-- the chain with a hole at 2 and a changed block 3
abbrev chain : ℕ → Sight
chain n = if n == 2 then Sight.missing else (if n == 3 then Sight.bad else Sight.good)

scan-all_example :
    ((scan 5 chain 4 1 (record { gaps = []; mismatches = [] })).gaps ≡ 2 ∷ [])
    × ((scan 5 chain 4 1 (record { gaps = []; mismatches = [] })).mismatches ≡ 3 ∷ [])
scan-all_example = scan-all 5 chain 4 1 (omega arith)

-- two refused calls and one for another key
abbrev attempts : List Attempt
attempts =
    record { time = 12; key = codes "k"; val = codes "2"; ttl = 5 }
    ∷ record { time = 13; key = codes "j"; val = codes "3"; ttl = 1 }
    ∷ record { time = 19; key = codes "k"; val = codes "4"; ttl = 5 }
    ∷ []

set_nx-set_nx_example :
    ((set_nx 20
        (codes "k")
        (codes "5")
        5
        (after_attempts attempts (set_nx 10 (codes "k") (codes "1") 30 []).1)).0
      ≡ false)
    × (get 20 (codes "k") (after_attempts attempts (set_nx 10 (codes "k") (codes "1") 30 []).1)
        ≡ codes "1")
unfolding set_nx
set_nx-set_nx_example =
    set_nx-set_nx 10 20 30 5 (codes "k") (codes "1") (codes "5") attempts [] (omega arith)
      (omega arith, (omega arith, (omega arith, tt))) (omega arith) refl

abbrev token : WatchedContract
token = record {
  address = codes "0xT";
  parsed = record {
    event_by_id = λ topic. some (record { name = codes "Transfer"; has_indexed = false });
    unpack = λ name bytes. some [];
    parse_topics = λ name topics. some [];
  };
  events = codes "Transfer" ∷ [];
}

abbrev registry : EventRegistry
registry = record { by_address = token ∷ []; to_hex = λ bytes. bytes }

abbrev log : Log
log = record {
  address = codes "0xT";
  topics = codes "0xddf" ∷ [];
  payload = 1 ∷ [];
  tx_hash = codes "0x7";
  index = 0;
  block_number = 9;
}

abbrev event : ParsedEvent
event = record {
  contract_address = codes "0xt";
  event_name = codes "Transfer";
  topic0 = codes "0xddf";
  topics = codes "0xddf" ∷ [];
  args = [];
}

parses : parse_log registry log ≡ ok (some event)
unfolding parse_log text_eq to_lower
parses = refl

abbrev near : Engine
near = record engine { hash_verify_window = 2; batch_size = 4 }

run_gap_scan-IsPending_example : IsPending 9 (run_gap_scan near node node (world_at 8)).1.db
unfolding run_gap_scan
run_gap_scan-IsPending_example =
    run_gap_scan-IsPending near node node 9 9 (world_at 8) refl refl (omega arith) (omega arith)
      refl (omega arith)
