-- ===== src/Tx/Service/Sending.antt =====
-- A new transaction is stored first and sent then.
use gin_demo.Prelude.{
  ◌≡◌, refl, ◌∙◌, Bool, true, false, Option, none, some, List, [], ◌∷◌, find_first, any,
  update_where, arith, ℕ,
}
use gin_demo.Prelude.Text.{Text, to_lower, text_eq, text_eq_refl}
use gin_demo.Sql.{ok, lift, ◌>>◌}
use gin_demo.Sql.Keeps.{
  Keeps, Keeps-bind, Keeps-ignore, Keeps-fail, Keeps-choose, Keeps-pure, Keeps-lift, Keeps-now,
  Keeps-update,
}
use gin_demo.Sql.Runs.{
  Runs, Ends, Runs-call, Runs-missing, Runs-lift-then, Runs-lift, Runs-exec, Runs-query,
  Runs-attempt, Runs-weaken, Runs-memory, Runs-memory-then, Runs-now-then, Runs-ignore, Ends-Keeps,
  Ends-call,
}
use gin_demo.Schema.{Db}
use gin_demo.Tx.Types.{Row, Status, InsertParams}
use gin_demo.Tx.Nonce.{sync_from_chain, raised, stored_nonce}
use gin_demo.Tx.Node.{Signed, TxNode, send_transaction}
use gin_demo.Tx.Store.{
  new_row, clashes, upsert_row, insert_row, insert_submitting, unsent, as_pending,
  as_broadcast_failed, mark_broadcast_pending, mark_broadcast_failed, get_by_hash,
}
use gin_demo.Tx.Service.{raw_of, persist_and_broadcast}

-- A row with the hash of the submission stands first, in a status that its broadcast may still change.
abbrev Stored : Text → Db → Type 0
Stored hash d =
    (r : Row) × (rest : List Row) × (d.tracker.rows ≡ r ∷ rest)
    × (r.tx_hash ≡ to_lower hash)
    × (r.status ≡ Status.submitting)

no_hash :
    (new : Row) (rows : List Row)
    → any (clashes new) rows ≡ false
    → any (λ old. text_eq old.tx_hash new.tx_hash) rows ≡ false
no_hash new [] h = refl
no_hash new (x ∷ rows) h = ground (arith, no_hash new rows, h)

upsert-new :
    (new : Row) (rows : List Row)
    → any (clashes new) rows ≡ false
    → upsert_row new rows ≡ new ∷ rows
upsert-new new rows fresh = rw (no_hash new rows fresh, fresh) refl

insert-Stored :
    (p : InsertParams) (d : Db)
    → p.status ≡ none
    → ((at : ℕ) → any (clashes (new_row p Status.submitting at)) d.tracker.rows ≡ false)
    → Runs d (insert_submitting p) (λ _ d'. Stored p.tx_hash d' × (d'.wire ≡ d.wire))
unfolding insert_submitting insert_row
insert-Stored p d plain fresh = Runs-now-then λ at. Runs-exec _ refl (
    rw plain (
      (
        new_row p Status.submitting at,
        d.tracker.rows,
        upsert-new (new_row p Status.submitting at) d.tracker.rows (fresh at),
        refl,
        refl,
      ),
      refl,
    ))

stored-unsent :
    (hash : Text) (r : Row)
    → r.tx_hash ≡ to_lower hash
    → r.status ≡ Status.submitting
    → unsent hash r ≡ true
stored-unsent hash r same waits = rw (same, waits, text_eq_refl (to_lower hash)) refl

-- The transaction is found in the status, and is the last one handed to the node.
abbrev pub SentAs : Status → Text → Text → Db → Db → Type 0
SentAs status hash sent d d' =
    (r : Row) × (find_first (λ x. text_eq x.tx_hash (to_lower hash)) d'.tracker.rows ≡ some r)
    × (r.status ≡ status)
    × (d'.wire ≡ sent ∷ d.wire)

marked-first :
    (hash : Text) (f : Row → Row) (r : Row) (rest : List Row)
    → r.tx_hash ≡ to_lower hash
    → r.status ≡ Status.submitting
    → (f r).tx_hash ≡ r.tx_hash
    → find_first (λ x. text_eq x.tx_hash (to_lower hash)) (update_where (unsent hash) f (r ∷ rest))
      ≡ some (f r)
marked-first hash f r rest same waits kept =
    let found : text_eq (f r).tx_hash (to_lower hash) ≡ true =
      rw (kept, same) (text_eq_refl (to_lower hash)) in
    rw (stored-unsent hash r same waits, found) refl

accepted-Runs :
    (hash sent : Text) (d d0 : Db)
    → Stored hash d
    → d.wire ≡ sent ∷ d0.wire
    → Runs d
        (mark_broadcast_pending hash >> get_by_hash hash)
        (λ r d'. (r.status ≡ Status.pending) × SentAs Status.pending hash sent d0 d')
unfolding mark_broadcast_pending get_by_hash
accepted-Runs hash sent d d0 (r, rest, rows, same, waits) wired =
    Runs-call
      {R = λ _ d'.
        (at : ℕ) × (find_first (λ x. text_eq x.tx_hash (to_lower hash)) d'.tracker.rows
          ≡ some (as_pending at r))
        × (d'.wire ≡ sent ∷ d0.wire)}
      (Runs-now-then λ at.
        Runs-exec _ refl
          (at, rw rows (marked-first hash (as_pending at) r rest same waits refl), wired))
      λ _ d1 p.
        Runs-query _ {a = as_pending p.0 r} (rw (p.1) refl)
          (refl, (as_pending (p.0) r, p.1, refl, p.2))

-- With no failing statement a new transaction that the node accepts is stored, sent once and tracked as
-- pending. Its hash and its idempotency key must be new to the tracker.
pub persist_and_broadcast-Sent :
    (node : TxNode) (p : InsertParams) (signed : Signed) (raw raw2 : Text) (sync : Bool) (d : Db)
    → raw_of node signed raw ≡ ok raw2
    → node.send_signed signed ≡ none
    → p.status ≡ none
    → find_first (λ x. text_eq x.tx_hash (to_lower p.tx_hash)) d.tracker.rows ≡ none
    → ((at : ℕ) → any (clashes (new_row p Status.submitting at)) d.tracker.rows ≡ false)
    → Runs d
        (persist_and_broadcast node p signed raw sync)
        (λ r d'. (r.status ≡ Status.pending) × SentAs Status.pending p.tx_hash signed.hash d d')
unfolding persist_and_broadcast send_transaction get_by_hash
persist_and_broadcast-Sent node p signed raw raw2 sync d printed accepts plain absent fresh =
    Runs-lift-then _ _ printed (
      Runs-call (Runs-missing _ (rw absent refl)) λ found d1 q.
        rw (q.0, q.1)
          (Runs-call {R = λ r d'. (r ≡ ok tt) × Stored p.tx_hash d' × (d'.wire ≡ d.wire)}
            (Runs-weaken
              (Runs-attempt (insert-Stored (record p { signed_raw_hex = raw2 }) d plain fresh))
              λ r d' s. (s.1, s.2.0, s.2.1))
            λ r d2 s. rw (s.0) (
              Runs-memory-then _ _ (
                rw accepts (
                  accepted-Runs p.tx_hash signed.hash (record d2 { wire = signed.hash ∷ d2.wire }) d
                    s.1 (rw (s.2) refl))))))

raised-beside :
    (addr : Text) (pending at : ℕ) (d : Db) (stored : Option ℕ)
    → ((raised addr pending at d stored).tracker.rows ≡ d.tracker.rows)
      × ((raised addr pending at d stored).wire ≡ d.wire)
raised-beside addr pending at d none = (refl, refl)
raised-beside addr pending at d (some next) = (refl, refl)

sync-Keeps :
    (status : Status) (hash sent from : Text) (node : TxNode) (d : Db)
    → Keeps (SentAs status hash sent d) (sync_from_chain from (lift (node.pending_nonce from)))
unfolding sync_from_chain
sync-Keeps status hash sent from node d = Keeps-bind (Keeps-lift _) λ pending.
    Keeps-bind Keeps-now λ at.
      Keeps-bind
        (Keeps-update _ (λ x. refl)
          λ x h.
            let beside =
              raised-beside (to_lower from) pending at x (stored_nonce (to_lower from) x) in
            (h.0, rw (beside.0) (h.1), h.2, beside.1 ∙ h.3))
        λ _. Keeps-pure pending

rejected-Runs :
    (hash sent message : Text) (d d0 : Db)
    → Stored hash d
    → d.wire ≡ sent ∷ d0.wire
    → Runs d
        (mark_broadcast_failed hash message)
        (λ _ d'. SentAs Status.broadcast_failed hash sent d0 d')
unfolding mark_broadcast_failed
rejected-Runs hash sent message d d0 (r, rest, rows, same, waits) wired = Runs-now-then λ at.
    Runs-exec _ refl (
      as_broadcast_failed message at r,
      rw rows (marked-first hash (as_broadcast_failed message at) r rest same waits refl),
      refl,
      wired,
    )

-- With no failing statement a new transaction that the node refuses is stored too, as one whose
-- broadcast has failed: whatever is handed to the node is tracked. Its hash and its idempotency key
-- must be new to the tracker.
pub persist_and_broadcast-Failed :
    (node : TxNode) (p : InsertParams) (signed : Signed) (raw raw2 message : Text) (sync : Bool)
    (d : Db)
    → raw_of node signed raw ≡ ok raw2
    → node.send_signed signed ≡ some message
    → p.status ≡ none
    → find_first (λ x. text_eq x.tx_hash (to_lower p.tx_hash)) d.tracker.rows ≡ none
    → ((at : ℕ) → any (clashes (new_row p Status.submitting at)) d.tracker.rows ≡ false)
    → Ends d
        (persist_and_broadcast node p signed raw sync)
        (SentAs Status.broadcast_failed p.tx_hash signed.hash d)
unfolding persist_and_broadcast send_transaction get_by_hash
persist_and_broadcast-Failed node p signed raw raw2 message sync d printed refuses plain absent
      fresh =
    Ends-call {R = λ x d'. (x ≡ raw2) × (d' ≡ d)} (rw printed (Runs-lift raw2 (refl, refl)))
      λ x d0 q0.
        rw (q0.0, q0.1)
          (Ends-call (Runs-missing _ (rw absent refl)) λ found d1 q.
            rw (q.0, q.1)
              (Ends-call {R = λ r d'. (r ≡ ok tt) × Stored p.tx_hash d' × (d'.wire ≡ d.wire)}
                (Runs-weaken
                  (Runs-attempt (insert-Stored (record p { signed_raw_hex = raw2 }) d plain fresh))
                  λ r d' s. (s.1, s.2.0, s.2.1))
                λ r d2 s. rw (s.0) (
                  Ends-call
                    {R = λ r d'.
                      (r ≡ some message) × Stored p.tx_hash d' × (d'.wire ≡ signed.hash ∷ d.wire)}
                    (Runs-memory _ (refuses, s.1, rw (s.2) refl))
                    λ answer d3 t. rw (t.0) (
                      Ends-call
                        {R = λ _ d'. SentAs Status.broadcast_failed p.tx_hash signed.hash d d'}
                        (Runs-ignore (rejected-Runs p.tx_hash signed.hash message d3 d (t.1) (t.2)))
                        λ _ d4 u.
                          Ends-Keeps
                            (Keeps-bind
                              (Keeps-choose _ _ _
                                (Keeps-ignore _ (
                                  sync-Keeps Status.broadcast_failed p.tx_hash signed.hash
                                    p.from_addr node d))
                                (Keeps-pure tt))
                              λ _. Keeps-fail _)
                            u))))
