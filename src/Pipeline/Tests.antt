-- ===== src/Pipeline/Tests.antt =====
-- Three headers are sent into a channel for two, a worker counts one and another is sent.
use gin_demo.Prelude.{ℕ, ◌≡◌, refl, some, List, [], ◌∷◌}
use gin_demo.Prelude.Text.{codes}
use gin_demo.Pipeline.{Header, ChainIndexer, Bus, new_bus, Step, run_steps}
use gin_demo.Pipeline.Bounds.{headers_in, closes, IsBounded, run_steps-IsBounded}

abbrev numbered : ℕ → Header
numbered n = record { number = n; hash = codes "0x0a" }

abbrev sends : List Step
sends =
    Step.header (numbered 1)
    ∷ Step.header (numbered 2)
    ∷ Step.header (numbered 3)
    ∷ Step.work 1
    ∷ Step.header (numbered 4)
    ∷ Step.transfer (record { tx_hash = codes "0x0b"; block_number = 4 })
    ∷ Step.work_transfer
    ∷ []

abbrev indexer : ChainIndexer (List Header)
indexer = record { enqueue_header = λ h i. h ∷ i; enqueue_transfer_log = λ l i. i }

run_steps-IsBounded_example :
    (b : Bus) × ((run_steps (some indexer) sends (some (new_bus 0 2), [])).0 ≡ some b)
    × IsBounded (headers_in sends) b
unfolding closes
run_steps-IsBounded_example = run_steps-IsBounded (some indexer) 0 2 sends [] refl
