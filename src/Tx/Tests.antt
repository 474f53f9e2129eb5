-- ===== src/Tx/Tests.antt =====
-- The tracker's theorems at a table with one pending and one confirmed transaction.
mod Sending
use gin_demo.Prelude.{
  arith, ℕ, ◌≡◌, ◌<◌, refl, true, false, Option, none, some, List, [], ◌∷◌, find_first, any,
}
use gin_demo.Prelude.Text.{Text, codes, text_eq, to_lower, lower_byte}
use gin_demo.Sql.{World, ok, pure, ◌>>=◌, ◌>>◌}
use gin_demo.Sql.Rules.{From, From-pure}
use gin_demo.Schema.{Db, empty_db}
use gin_demo.Tx.Types.{Row, Status, TxFormat, TxType, InsertParams, empty_tables}
use gin_demo.Tx.Nonce.{allocate, sync_from_chain, stored_nonce}
use gin_demo.Tx.Nonce.Laws.{allocate_sync_allocate-increases, allocate-answers}
use gin_demo.Tx.Store.{insert_submitting, clashes, new_row}
use gin_demo.Tx.Store.Terminal.{SendStep, TrackedAs, run_steps, run_steps-TrackedAs, has_hash}
use gin_demo.Tx.Store.Conflict.{insert_submitting-absorbed}
use gin_demo.Tx.Outbox.{Sighting, transition_status}
use gin_demo.Tx.Outbox.Transition.{Transition, transition_status-Transition}

abbrev pub row : Text → Status → Option Text → Row
row hash status key = record {
  tx_hash = hash;
  from_addr = codes "0xa";
  to_addr = codes "0xb";
  token_addr = none;
  value_wei = codes "5";
  nonce = 7;
  gas_limit = 21000;
  gas_price_wei = some (codes "1");
  max_fee_per_gas_wei = none;
  max_priority_fee_wei = none;
  tx_format = TxFormat.legacy;
  tx_type = TxType.native;
  status = status;
  block_number = 0;
  gas_used = none;
  confirmations = 0;
  error_message = none;
  biz_id = none;
  biz_type = none;
  idempotency_key = key;
  replaces_hash = none;
  replaced_by_hash = none;
  signed_raw_hex = none;
  broadcast_retry_count = 0;
  created_at = 1;
  updated_at = 1;
}

abbrev pub tracked_db : Db
tracked_db = record empty_db {
  tracker = record empty_tables {
    rows =
        row (codes "0x1") Status.pending (some (codes "k"))
        ∷ row (codes "0x2") Status.confirmed none
        ∷ [];
  };
}

abbrev pub tracked : World Db
tracked = record { db = tracked_db; faults = []; clock = 9 }

abbrev submission : Text → InsertParams
submission hash = record {
  tx_hash = hash;
  from_addr = codes "0xA";
  to_addr = codes "0xB";
  token_addr = [];
  value_wei = codes "5";
  nonce = 8;
  gas_limit = 21000;
  gas_price_wei = codes "1";
  max_fee_per_gas_wei = [];
  max_priority_fee_wei = [];
  tx_format = none;
  tx_type = none;
  biz_id = [];
  biz_type = [];
  idempotency_key = codes "K";
  replaces_hash = [];
  signed_raw_hex = codes "f8";
  status = none;
}

abbrev with_nonce : World Db
with_nonce = record {
  db = record empty_db {
    tracker = record empty_tables {
      nonces = record { address = codes "0xa"; next_nonce = 6; updated_at = 1 } ∷ [];
    };
  };
  faults = [];
  clock = 9;
}

allocate_sync_allocate-increases_example :
    From {A = ℕ × ℕ} with_nonce.db
      (do
        first ← allocate (codes "0xA") (pure 4)
        sync_from_chain (codes "0xA") (pure 4)
        second ← allocate (codes "0xA") (pure 4)
        pure (first, second))
      (λ nonces _. nonces.0 < nonces.1)
unfolding text_eq to_lower lower_byte
allocate_sync_allocate-increases_example =
    allocate_sync_allocate-increases (pure 4) (λ d. From-pure 4 (omega arith, refl)) (codes "0xA")
      with_nonce.db (λ n h. let held : 6 ≡ n = cc in omega (arith, held))

abbrev steps : List SendStep
steps =
    SendStep.mark_sent (codes "0x1")
    ∷ SendStep.submit (submission (codes "0x2"))
    ∷ SendStep.mark_unsent (codes "0x2") (codes "timeout")
    ∷ SendStep.retry (codes "0x2")
    ∷ []

tracked_there :
    find_first (has_hash (codes "0x2")) tracked_db.tracker.rows
    ≡ some (row (codes "0x2") Status.confirmed none)
unfolding text_eq
tracked_there = refl

run_steps-TrackedAs_example :
    TrackedAs (codes "0x2") Status.confirmed (run_steps steps tracked).1.db
run_steps-TrackedAs_example =
    run_steps-TrackedAs (codes "0x2") Status.confirmed steps tracked refl
      (row (codes "0x2") Status.confirmed none, tracked_there, refl)

abbrev seen : Sighting
seen = record { block_number = 12; confirmations = 3; gas_used = 21000; message = [] }

transition_status-Transition_example :
    From tracked_db (transition_status (codes "0x1") Status.confirmed seen) (λ _ d'.
      (old : Row) × (find_first
          (λ r. text_eq r.tx_hash (to_lower (codes "0x1")))
          tracked_db.tracker.rows
        ≡ some old)
      × Transition (codes "0x1") Status.confirmed old tracked_db d')
transition_status-Transition_example =
    transition_status-Transition (codes "0x1") Status.confirmed seen tracked_db

not_tracked : any (has_hash (to_lower (codes "0x3"))) tracked_db.tracker.rows ≡ false
unfolding text_eq to_lower lower_byte
not_tracked = refl

held :
    any (clashes (new_row (submission (codes "0x3")) Status.submitting 9)) tracked_db.tracker.rows
    ≡ true
unfolding text_eq to_lower lower_byte
held = refl

insert_submitting-absorbed_example :
    ((insert_submitting (submission (codes "0x3")) tracked).0 ≡ ok tt)
    × (find_first
          (has_hash (to_lower (codes "0x3")))
          (insert_submitting (submission (codes "0x3")) tracked).1.db.tracker.rows
        ≡ none)
insert_submitting-absorbed_example =
    insert_submitting-absorbed (submission (codes "0x3")) tracked refl not_tracked held

allocate-answers_example :
    ((allocate (codes "0xA") (pure 4) with_nonce).0 ≡ ok 6)
    × (stored_nonce (to_lower (codes "0xA")) (allocate (codes "0xA") (pure 4) with_nonce).1.db
        ≡ some 7)
unfolding text_eq to_lower lower_byte
allocate-answers_example = allocate-answers (codes "0xA") 4 with_nonce refl (omega arith)
