-- ===== src/Tx/Tests/Sending.antt =====
-- The theorems on sending and tracking at the small table of the tracker's tests.
use gin_demo.Prelude.{arith, ◌≡◌, refl, true, false, none, some, [], ◌∷◌, inr}
use gin_demo.Prelude.Int.{pos}
use gin_demo.Prelude.Text.{codes, text_eq, to_lower, is_empty}
use gin_demo.Sql.{World, ok, err, remote}
use gin_demo.Sql.Runs.{Runs, Ends}
use gin_demo.Schema.{Db, empty_db}
use gin_demo.Exchange.Ledger.Audit.{IsAudited, empty-IsAudited}
use gin_demo.Tx.Types.{Status, InsertParams}
use gin_demo.Tx.Node.{SendResult, TxNode, Signer}
use gin_demo.Tx.Service.{SendMeta, submit_raw, send_native, send_erc20, persist_and_broadcast}
use gin_demo.Tx.Service.Once.{SentUntracked, submit_raw-untracked, send-again}
use gin_demo.Tx.Service.Sending.{SentAs, persist_and_broadcast-Sent, persist_and_broadcast-Failed}
use gin_demo.Tx.Tracker.{Tracker, track_one, run_once}
use gin_demo.Tx.Tracker.Handlers.{exchange_handler, run_once-IsAudited}
use gin_demo.Tx.Tracker.Confirmed.{Unconfirmed, track_one-Unconfirmed, exchange_handler-Unconfirmed}
use gin_demo.Tx.Tests.{row, tracked_db, tracked}

abbrev result : SendResult
result = record {
  hash = codes "0x9";
  from = codes "0xa";
  to = codes "0xb";
  token = none;
  value = pos 5;
  nonce = 7;
  gas_limit = 21000;
  gas_price = some (pos 1);
  max_fee_per_gas = none;
  max_priority_fee = none;
  tx_format = none;
  tx_type = none;
}

abbrev node : TxNode
node = record {
  block_number = ok 9;
  pending_nonce = λ address. ok 7;
  decode_raw = λ raw. ok (record { hash = codes "0x9" });
  validate_chain = λ tx. ok tt;
  send_result = λ tx. ok result;
  raw_hex = λ tx. ok (codes "0xf8");
  send_signed = λ tx. none;
  transaction_by_hash = λ hash. some true;
  transaction_receipt =
      λ hash. some (record { failed = false; gas_used = 21000; block_number = 8 });
}

abbrev signer : Signer
signer = record {
  address = codes "0xa";
  sign_native = λ to value nonce. ok (record { hash = codes "0x9" }, result);
  sign_erc20 = λ token to value nonce. ok (record { hash = codes "0x9" }, result);
  sign_speed_up_native = λ to value nonce gas eip1559. err remote;
  sign_speed_up_erc20 = λ token to value nonce gas eip1559. err remote;
}

abbrev meta : SendMeta
meta = record { biz_id = []; biz_type = []; idempotency_key = codes "k"; replaces_hash = [] }

send-again_example :
    Runs tracked_db
      (submit_raw node (record { signed_raw_tx = codes "0xf8"; meta = meta }))
      (λ r d'. (r ≡ row (codes "0x1") Status.pending (some (codes "k"))) × (d' ≡ tracked_db))
    × Runs tracked_db
        (send_native node signer (codes "0xb") (codes "5") meta)
        (λ r d'. (r ≡ row (codes "0x1") Status.pending (some (codes "k"))) × (d' ≡ tracked_db))
    × Runs tracked_db
        (send_erc20 node signer (codes "0xt") (codes "0xb") (codes "5") meta)
        (λ r d'. (r ≡ row (codes "0x1") Status.pending (some (codes "k"))) × (d' ≡ tracked_db))
unfolding is_empty text_eq to_lower
send-again_example =
    send-again node signer (codes "0xf8") (codes "0xt") (codes "0xb") (codes "5") meta
      (row (codes "0x1") Status.pending (some (codes "k"))) tracked_db refl refl refl

abbrev waiting : World Db
waiting = record {
  db = record empty_db {
    tracker = record (empty_db.tracker) {
      rows = row (codes "0x1") Status.broadcast_failed (some (codes "k")) ∷ [];
    };
  };
  faults = [];
  clock = 9;
}

submit_raw-untracked_example :
    SentUntracked
      (codes "0x9")
      (waiting.db)
      (submit_raw node (record { signed_raw_tx = codes "0xf8"; meta = meta }) waiting).1.db
unfolding is_empty text_eq to_lower
submit_raw-untracked_example =
    submit_raw-untracked node (record { signed_raw_tx = codes "0xf8"; meta = meta })
      (row (codes "0x1") Status.broadcast_failed (some (codes "k"))) (record { hash = codes "0x9" })
      waiting refl refl refl refl refl refl refl

abbrev params : InsertParams
params = record {
  tx_hash = codes "0x9";
  from_addr = codes "0xa";
  to_addr = codes "0xb";
  token_addr = [];
  value_wei = codes "5";
  nonce = 7;
  gas_limit = 21000;
  gas_price_wei = codes "1";
  max_fee_per_gas_wei = [];
  max_priority_fee_wei = [];
  tx_format = none;
  tx_type = none;
  biz_id = [];
  biz_type = [];
  idempotency_key = codes "k2";
  replaces_hash = [];
  signed_raw_hex = [];
  status = none;
}

persist_and_broadcast-Sent_example :
    Runs tracked_db
      (persist_and_broadcast node params (record { hash = codes "0x9" }) [] true)
      (λ r d'.
        (r.status ≡ Status.pending)
        × SentAs Status.pending (codes "0x9") (codes "0x9") tracked_db d')
unfolding is_empty text_eq to_lower
persist_and_broadcast-Sent_example =
    persist_and_broadcast-Sent node params (record { hash = codes "0x9" }) [] (codes "0xf8") true
      tracked_db refl refl refl refl (λ at. refl)

abbrev refusing : TxNode
refusing = record node { send_signed = λ tx. some (codes "underpriced") }

persist_and_broadcast-Failed_example :
    Ends tracked_db
      (persist_and_broadcast refusing params (record { hash = codes "0x9" }) [] true)
      (SentAs Status.broadcast_failed (codes "0x9") (codes "0x9") tracked_db)
unfolding is_empty text_eq to_lower
persist_and_broadcast-Failed_example =
    persist_and_broadcast-Failed refusing params (record { hash = codes "0x9" }) [] (codes "0xf8")
      (codes "underpriced") true tracked_db refl refl refl refl (λ at. refl)

abbrev tracker : Tracker
tracker = record {
  confirm_depth = 3;
  max_pending_hours = 24;
  batch_size = 10;
  withdraw = some exchange_handler;
}

run_once-IsAudited_example : IsAudited (run_once tracker node tracked).1.db
run_once-IsAudited_example =
    run_once-IsAudited tracker node tracked refl (empty-IsAudited tracked_db refl refl)

-- included in the block 8, with the head at 9, one block short of the depth
abbrev included : TxNode
included = record node {
  transaction_receipt =
      λ hash. some (record { failed = false; gas_used = 21000; block_number = 8 });
}

track_one-Unconfirmed_example :
    Unconfirmed
      (codes "0x1")
      (track_one tracker included (row (codes "0x1") Status.pending none) 9 tracked).1.db
unfolding text_eq
track_one-Unconfirmed_example =
    track_one-Unconfirmed (codes "0x1") tracker included (row (codes "0x1") Status.pending none) 9
      tracked (exchange_handler-Unconfirmed (codes "0x1")) (omega arith) (inr (omega arith)) refl
