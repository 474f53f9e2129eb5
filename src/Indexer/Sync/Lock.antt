-- ===== src/Indexer/Sync/Lock.antt =====
-- One worker at a time syncs a block.
use gin_demo.Prelude.{ℕ, ◌≡◌, refl, Bool, true, false, none}
use gin_demo.Prelude.Text.{codes}
use gin_demo.Sql.{World, Result, ok, deferred, and_then, ◌>>=◌}
use gin_demo.Schema.{Db}
use gin_demo.Cache.{set_nx, find, del}
use gin_demo.Cache.Lock.{find-drop_key}
use gin_demo.Indexer.Node.{Node}
use gin_demo.Indexer.Engine.{Engine, lock_key}
use gin_demo.Indexer.Sync.{sync_block, sync_locked, drop_lock}

-- whether `SetNX` gives the lock of the block
abbrev pub lock_free : Engine → ℕ → World Db → Bool
lock_free e num w = (set_nx w.clock (lock_key e num) (codes "1") 30000 w.db.cache).0

-- A worker that finds the lock of the block taken answers no error and changes nothing in MySQL.
pub sync_block-locked :
    (e : Engine) (node later : Node) (num : ℕ) (w : World Db)
    → lock_free e num w ≡ false
    → ((sync_block e node later num w).0 ≡ ok tt)
      × ((sync_block e node later num w).1.db.indexer ≡ w.db.indexer)
      × ((sync_block e node later num w).1.db.exchange ≡ w.db.exchange)
unfolding sync_block ◌>>=◌
sync_block-locked e node later num w taken = rw taken (refl, refl, refl)

released :
    (e : Engine) (num : ℕ) (r : Result (Unit {0}) × World Db)
    → find (lock_key e num) (and_then (drop_lock e num) r).1.db.cache ≡ none
unfolding del
released e num r = find-drop_key (lock_key e num) r.1.db.cache

-- A worker that gets the lock of the block has given it back in the end, however the syncing ends.
pub sync_block-releases :
    (e : Engine) (node later : Node) (num : ℕ) (w : World Db)
    → lock_free e num w ≡ true
    → find (lock_key e num) (sync_block e node later num w).1.db.cache ≡ none
unfolding sync_block ◌>>=◌ deferred
sync_block-releases e node later num w free =
    let locked = (set_nx w.clock (lock_key e num) (codes "1") 30000 w.db.cache).1 in
    rw free (
      released e num
        (sync_locked e node later num (record w { db = record (w.db) { cache = locked } })))
