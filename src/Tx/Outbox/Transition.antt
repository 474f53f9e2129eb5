-- ===== src/Tx/Outbox/Transition.antt =====
-- A status transition is recorded, and reported exactly when the status has changed.
use gin_demo.Prelude.{
  ℕ, ◌≡◌, refl, true, false, Option, some, List, [], ◌∷◌, ◌&&◌, find_first, update_where, All,
  arith, Bool-cases, inl, inr, ◌⊎◌,
}
use gin_demo.Prelude.Text.{Text, text_eq, to_lower, is_empty}
use gin_demo.Sql.{pure, ◌>>◌, choose}
use gin_demo.Sql.Rules.{
  From, From-pure, From-call, From-query-then, From-total, From-now-then, From-choose, From-weaken,
  first_row-ok,
}
use gin_demo.Schema.{Db}
use gin_demo.Tx.Types.{Row, Status, OutboxItem, OutboxExtra}
use gin_demo.Tx.Store.{get_by_hash, is_status}
use gin_demo.Tx.Outbox.{
  Sighting, moved, update_fields, insert_outbox, outbox_item, transition_status,
}

-- Every row with the hash has the status.
abbrev pub AllIn : Text → Status → Db → Type 0
AllIn hash s d = All (λ (r : Row). text_eq r.tx_hash hash ≡ true → r.status ≡ s) d.tracker.rows

All-moved :
    (hash : Text) (s : Status) (seen : Sighting) (at : ℕ) (rows : List Row)
    → All
        (λ (r : Row). text_eq r.tx_hash hash ≡ true → r.status ≡ s)
        (update_where (λ r. text_eq r.tx_hash hash) (moved s seen at) rows)
All-moved hash s seen at [] = tt
All-moved hash s seen at (r ∷ rows) = elim (Bool-cases (text_eq r.tx_hash hash)) [
  | inl hit ↦ rw hit ((λ _. refl), All-moved hash s seen at rows)
  | inr miss ↦ rw miss ((λ h. cc), All-moved hash s seen at rows)
]

-- The update alone: the rows are in the new status, and nothing is reported.
abbrev Moved : Text → Status → Db → Db → Type 0
Moved hash s d d' = AllIn (to_lower hash) s d' × (d'.tracker.outbox ≡ d.tracker.outbox)

update-Moved :
    (hash : Text) (s : Status) (seen : Sighting) (d : Db)
    → From d (update_fields hash s seen) (λ _ d'. Moved hash s d d')
unfolding update_fields
update-Moved hash s seen d =
    From-now-then λ at. From-total _ refl (All-moved (to_lower hash) s seen at d.tracker.rows, refl)

-- One more report, of the change from `old` to `new`.
abbrev pub Reported : Text → Status → Status → Db → Db → Type 0
Reported hash old new d d' =
    (item : OutboxItem) × (d'.tracker.outbox ≡ item ∷ d.tracker.outbox)
    × (item.tx_hash ≡ to_lower hash)
    × (item.old_status ≡ old)
    × (item.new_status ≡ new)

insert-Reported :
    (hash : Text) (biz : Option Text) (old new : Status) (extra : OutboxExtra) (d : Db)
    → From d
        (insert_outbox hash biz old new extra)
        (λ _ d'. Reported hash old new d d' × (d'.tracker.rows ≡ d.tracker.rows))
unfolding insert_outbox
insert-Reported hash biz old new extra d = From-now-then λ at.
    From-total _ refl (
      (outbox_item hash biz old new extra at d.tracker.next_outbox_id, refl, refl, refl, refl),
      refl,
    )

-- The rows are in the new status, and the outbox has a report exactly if the status was another one.
abbrev pub Transition : Text → Status → Row → Db → Db → Type 0
Transition hash s old d d' =
    AllIn (to_lower hash) s d'
    × (((is_status s old ≡ true) × (d'.tracker.outbox ≡ d.tracker.outbox))
        ⊎ ((is_status s old ≡ false) × Reported hash old.status s d d'))

known_kept :
    (hash : Text) (s : Status) (old : Row) (d d' : Db)
    → is_status s old ≡ true
    → Moved hash s d d'
    → Transition hash s old d d'
known_kept hash s old d d' same (rows, outbox) = (rows, inl (same, outbox))

known_reported :
    (hash : Text) (s : Status) (old : Row) (d d1 d' : Db)
    → is_status s old ≡ false
    → Moved hash s d d1
    → Reported hash old.status s d1 d'
    → d'.tracker.rows ≡ d1.tracker.rows
    → Transition hash s old d d'
known_reported hash s old d d1 d' differ (rows, outbox) report same_rows =
    (rw same_rows rows, inr (differ, rw outbox at report))

steps :
    (hash : Text) (s : Status) (seen : Sighting) (old : Row) (d : Db)
    → From d
        (choose (is_status s old && is_empty seen.message) (update_fields hash s seen) (
          update_fields hash s seen
          >> choose (is_status s old) (pure tt) (
              insert_outbox hash old.biz_id old.status s
                (OutboxExtra.transition seen.block_number seen.confirmations seen.message))))
        (λ _ d'. Transition hash s old d d')
steps hash s seen old d =
    From-choose
      (λ quiet.
        From-weaken (update-Moved hash s seen d)
          (λ _ d' r. known_kept hash s old d d' (ground (arith, quiet)) r))
      (λ _. From-call (update-Moved hash s seen d) λ _ d1 r.
        From-choose (λ same. From-pure tt (known_kept hash s old d d1 same r))
          (λ differ.
            From-weaken (insert-Reported hash old.biz_id old.status s _ d1)
              (λ _ d' report. known_reported hash s old d d1 d' differ r report.0 report.1)))

-- A transition that succeeds has found the transaction, has put it in the new status, and has added
-- one report, from the old status to the new one, exactly if the two differ.
pub transition_status-Transition :
    (hash : Text) (s : Status) (seen : Sighting) (d : Db)
    → From d (transition_status hash s seen) (λ _ d'.
      (old : Row) × (find_first (λ r. text_eq r.tx_hash (to_lower hash)) d.tracker.rows ≡ some old)
      × Transition hash s old d d')
unfolding transition_status get_by_hash
transition_status-Transition hash s seen d = From-query-then _ λ old e.
    let found : find_first (λ (r : Row). text_eq r.tx_hash (to_lower hash)) d.tracker.rows
        ≡ some old =
      first_row-ok _ e in
    From-weaken {R = λ _ d'. Transition hash s old d d'} (steps hash s seen old d)
      (λ _ d' r. (old, found, r))
