-- ===== src/Tx/Store/Conflict.antt =====
-- A submission whose idempotency key another transaction holds.
use gin_demo.Prelude.{
  ◌≡◌, refl, Bool, true, false, none, List, [], ◌∷◌, find_first, update_where, any, arith,
  Bool-cases, inl, inr,
}
use gin_demo.Prelude.Text.{Text, to_lower}
use gin_demo.Sql.{ok, World, statement, ◌>>=◌}
use gin_demo.Schema.{Db}
use gin_demo.Tx.Types.{Row, InsertParams}
use gin_demo.Tx.Store.{
  merged, clashes, new_row, upsert_row, insert_row, insert_submitting, first_status,
}
use gin_demo.Tx.Store.Terminal.{has_hash}

still_absent :
    (hash : Text) (test : Row → Bool) (new : Row) (rows : List Row)
    → any (has_hash hash) rows ≡ false
    → find_first (has_hash hash) (update_where test (merged new) rows) ≡ none
still_absent hash test new [] h = refl
still_absent hash test new (x ∷ rows) h =
    let rest = still_absent hash test new rows (ground (arith, h)) in
    elim (Bool-cases (test x)) [
      | inl hit ↦ rw hit (ground (arith, h, rest))
      | inr miss ↦ rw miss (ground (arith, h, rest))
    ]

absorbed_row :
    (new : Row) (rows : List Row)
    → any (has_hash new.tx_hash) rows ≡ false
    → any (clashes new) rows ≡ true
    → find_first (has_hash new.tx_hash) (upsert_row new rows) ≡ none
absorbed_row new rows free clash =
    rw (free, clash) (still_absent new.tx_hash (clashes new) new rows free)

-- A submission under an idempotency key that another transaction holds is answered without an error
-- and the transaction is not tracked: the statement updates the other transaction's row. The
-- statement goes through, and the submitted hash is not tracked before.
pub insert_submitting-absorbed :
    (p : InsertParams) (w : World Db)
    → statement w.faults ≡ false
    → any (has_hash (to_lower p.tx_hash)) w.db.tracker.rows ≡ false
    → any (clashes (new_row p (first_status p) w.clock)) w.db.tracker.rows ≡ true
    → ((insert_submitting p w).0 ≡ ok tt)
      × (find_first (has_hash (to_lower p.tx_hash)) (insert_submitting p w).1.db.tracker.rows
          ≡ none)
unfolding insert_submitting insert_row ◌>>=◌
insert_submitting-absorbed p w sent free clash =
    rw sent (refl, absorbed_row (new_row p (first_status p) w.clock) w.db.tracker.rows free clash)
