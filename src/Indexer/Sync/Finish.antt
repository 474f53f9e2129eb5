-- ===== src/Indexer/Sync/Finish.antt =====
-- What the end of a synced block leaves: the checkpoint, the confirmations, the pending header.
use gin_demo.Prelude.{ℕ, ◌≤◌, ◌≡◌, false, any, ◌⊎◌}
use gin_demo.Prelude.Text.{Text}
use gin_demo.Sql.Runs.{Runs}
use gin_demo.Schema.{Db}
use gin_demo.Indexer.Store.{is_header, is_confirmable, greatest, or_default}

abbrev pub last_in : Db → ℕ
last_in d = (or_default d.indexer.checkpoint).last_block_number

abbrev pub confirmed_in : Db → ℕ
confirmed_in d = (or_default d.indexer.checkpoint).confirmed_block_number

-- The block is no longer pending, the checkpoint has not gone back and stands at the block or past it,
-- it confirms no less than before, and no block up to the confirmed one is still pending.
abbrev pub Finished : ℕ → ℕ → Db → Db → Type 0
Finished num confirmed d d' =
    (any (is_header num) d'.indexer.pending_headers ≡ false)
    × (last_in d' ≡ greatest (last_in d) num)
    × (confirmed_in d ≤ confirmed_in d')
    × ((confirmed ≡ 0) ⊎ (any (is_confirmable confirmed) d'.indexer.blocks ≡ false))

abbrev NoneOpen : ℕ → Db → Type 0
NoneOpen confirmed d = (confirmed ≡ 0) ⊎ (any (is_confirmable confirmed) d.indexer.blocks ≡ false)

-- the checkpoint after the block
abbrev Advanced : ℕ → Db → Db → Type 0
Advanced num d d' = (last_in d' ≡ greatest (last_in d) num) × (confirmed_in d ≤ confirmed_in d')
