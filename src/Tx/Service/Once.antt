-- ===== src/Tx/Service/Once.antt =====
-- A transaction that is sent already is not sent again under its idempotency key; one that waits to be
-- sent lets another transaction through.
use gin_demo.Prelude.{
  ◌≡◌, refl, true, false, Option, none, some, ◌∙◌, [], ◌∷◌, find_first, any, any-update_where,
}
use gin_demo.Prelude.Text.{Text, to_lower, is_empty}
use gin_demo.Sql.{ok, World, choose}
use gin_demo.Sql.Keeps.{
  Keeps, Keeps-bind, Keeps-query, Keeps-update, Keeps-now, Keeps-ignore, Keeps-fail,
}
use gin_demo.Sql.Runs.{
  Runs, Ends, Runs-pure, Runs-call, Runs-choose, Runs-found, Runs-lift, Runs-memory, Ends-Keeps,
  Ends-call,
}
use gin_demo.Schema.{Db, Action}
use gin_demo.Tx.Types.{Row}
use gin_demo.Tx.Node.{Signed, TxNode, Signer, send_transaction}
use gin_demo.Tx.Store.{
  same_key, get_by_idempotency_key, mark_broadcast_pending, mark_broadcast_failed, get_by_hash,
}
use gin_demo.Tx.Store.Terminal.{has_hash}
use gin_demo.Tx.Service.{
  SendMeta, SubmitRequest, is_unsent, resume_broadcast, broadcast_again, record_send, submit_raw,
  keyed, unless_sent, send_native, send_erc20,
}

-- the row of an idempotency key
abbrev pub holder : Text → Db → Option Row
holder key d = find_first (λ r. same_key r.idempotency_key (some (to_lower key))) d.tracker.rows

module _ (node : TxNode) (row : Row) (raw : Text) (d : Db) (sent : is_unsent row ≡ false) where
  resume-Runs : Runs d (resume_broadcast node row raw) (λ r d'. (r ≡ row) × (d' ≡ d))
  unfolding resume_broadcast
  resume-Runs = rw sent (Runs-choose (λ k. cc) (λ _. Runs-pure row (refl, refl)))

keyed-Runs :
    (key : Text) (row : Row) (d : Db)
    → is_empty key ≡ false
    → holder key d ≡ some row
    → Runs d (keyed key) (λ r d'. (r ≡ some row) × (d' ≡ d))
unfolding get_by_idempotency_key
keyed-Runs key row d given held =
    rw given (Runs-choose (λ k. cc) (λ _. Runs-found _ (rw held refl)))

submit_raw-again :
    (node : TxNode) (req : SubmitRequest) (row : Row) (d : Db)
    → is_empty req.meta.idempotency_key ≡ false
    → holder req.meta.idempotency_key d ≡ some row
    → is_unsent row ≡ false
    → Runs d (submit_raw node req) (λ r d'. (r ≡ row) × (d' ≡ d))
unfolding submit_raw
submit_raw-again node req row d given held sent =
    Runs-call (keyed-Runs req.meta.idempotency_key row d given held)
      λ found d1 p. rw (p.0, p.1) (resume-Runs node row req.signed_raw_tx d sent)

unless_sent-again :
    (node : TxNode) (key : Text) (fresh : Action Row) (row : Row) (d : Db)
    → is_empty key ≡ false
    → holder key d ≡ some row
    → is_unsent row ≡ false
    → Runs d (unless_sent node key fresh) (λ r d'. (r ≡ row) × (d' ≡ d))
unfolding unless_sent
unless_sent-again node key fresh row d given held sent =
    Runs-call (keyed-Runs key row d given held)
      λ found d1 p. rw (p.0, p.1) (resume-Runs node row _ d sent)

-- Under an idempotency key whose row is past its broadcast, SubmitRaw, SendNative and SendERC20 answer
-- that row when no statement fails: no nonce is taken, and nothing is signed, stored or sent.
pub send-again :
    (node : TxNode) (key : Signer) (raw token to value : Text) (meta : SendMeta) (row : Row)
    (d : Db)
    → is_empty meta.idempotency_key ≡ false
    → holder meta.idempotency_key d ≡ some row
    → is_unsent row ≡ false
    → Runs d
        (submit_raw node (record { signed_raw_tx = raw; meta = meta }))
        (λ r d'. (r ≡ row) × (d' ≡ d))
      × Runs d (send_native node key to value meta) (λ r d'. (r ≡ row) × (d' ≡ d))
      × Runs d (send_erc20 node key token to value meta) (λ r d'. (r ≡ row) × (d' ≡ d))
unfolding send_native send_erc20
send-again node key raw token to value meta row d given held sent = (
  submit_raw-again node (record { signed_raw_tx = raw; meta = meta }) row d given held sent,
  unless_sent-again node meta.idempotency_key _ row d given held sent,
  unless_sent-again node meta.idempotency_key _ row d given held sent,
)

-- The transaction is the last one handed to the node, and no row has its hash.
abbrev pub SentUntracked : Text → Db → Db → Type 0
SentUntracked hash d d' = (d'.wire ≡ hash ∷ d.wire) × (any (has_hash hash) d'.tracker.rows ≡ false)

record_send-Keeps :
    (hash other : Text) (refused : Option Text) (d : Db)
    → Keeps (SentUntracked hash d) (record_send other refused)
unfolding mark_broadcast_pending mark_broadcast_failed get_by_hash
record_send-Keeps hash other none d =
    Keeps-bind
      (Keeps-bind Keeps-now λ at.
        Keeps-update _ (λ x. refl)
          λ x h. (h.0, any-update_where (has_hash hash) _ _ x.tracker.rows (λ r. refl) ∙ h.1))
      λ _. Keeps-query _
record_send-Keeps hash other (some message) d =
    Keeps-bind
      (Keeps-ignore _ (
        Keeps-bind Keeps-now λ at.
          Keeps-update _ (λ x. refl)
            λ x h. (h.0, any-update_where (has_hash hash) _ _ x.tracker.rows (λ r. refl) ∙ h.1)))
      λ _. Keeps-fail _

broadcast_again-Untracked :
    (node : TxNode) (row : Row) (raw : Text) (tx : Signed) (d : Db)
    → node.decode_raw raw ≡ ok tx
    → any (has_hash tx.hash) d.tracker.rows ≡ false
    → Ends d (broadcast_again node row raw) (SentUntracked tx.hash d)
unfolding broadcast_again send_transaction
broadcast_again-Untracked node row raw tx d decoded unknown =
    Ends-call {R = λ x d'. (x ≡ tx) × (d' ≡ d)} (rw decoded (Runs-lift tx (refl, refl))) λ x d1 p.
      rw (p.0, p.1)
        (Ends-call {R = λ _ d'. SentUntracked tx.hash d d'} (Runs-memory _ (refl, unknown))
          λ refused d2 q. Ends-Keeps (record_send-Keeps tx.hash row.tx_hash refused d) q)

submit_raw-Ends :
    (node : TxNode) (req : SubmitRequest) (row : Row) (tx : Signed) (d : Db)
    → is_empty req.meta.idempotency_key ≡ false
    → holder req.meta.idempotency_key d ≡ some row
    → is_unsent row ≡ true
    → is_empty req.signed_raw_tx ≡ false
    → node.decode_raw req.signed_raw_tx ≡ ok tx
    → any (has_hash tx.hash) d.tracker.rows ≡ false
    → Ends d (submit_raw node req) (SentUntracked tx.hash d)
unfolding submit_raw resume_broadcast choose
submit_raw-Ends node req row tx d given held waits present decoded unknown =
    Ends-call (keyed-Runs req.meta.idempotency_key row d given held) λ found d1 p.
      rw (p.0, p.1)
        (rw (waits, present, present)
          (broadcast_again-Untracked node row req.signed_raw_tx tx d decoded unknown))

-- With no failing statement, SubmitRaw under the key of a row that waits for its broadcast hands the
-- request's own transaction to the node, also when it is another one than the row's: if no row has its
-- hash, it is sent and no row has its hash afterwards.
pub submit_raw-untracked :
    (node : TxNode) (req : SubmitRequest) (row : Row) (tx : Signed) (w : World Db)
    → w.faults ≡ []
    → is_empty req.meta.idempotency_key ≡ false
    → holder req.meta.idempotency_key w.db ≡ some row
    → is_unsent row ≡ true
    → is_empty req.signed_raw_tx ≡ false
    → node.decode_raw req.signed_raw_tx ≡ ok tx
    → any (has_hash tx.hash) w.db.tracker.rows ≡ false
    → SentUntracked tx.hash w.db (submit_raw node req w).1.db
submit_raw-untracked node req row tx w calm given held waits present decoded unknown =
    (submit_raw-Ends node req row tx w.db given held waits present decoded unknown).at w refl calm
