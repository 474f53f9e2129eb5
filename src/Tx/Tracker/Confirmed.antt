-- ===== src/Tx/Tracker/Confirmed.antt =====
-- Which receipts confirm a transaction.
use gin_demo.Prelude.{
  ℕ, ◌+◌, ◌<◌, if◌then◌else◌, ◌≡◌, refl, Bool, true, false, ◌&&◌, Option, none, some, List, [], ◌∷◌,
  any, update_where, leb, ◌==◌, Bool-cases, inl, inr, arith, ◌⊎◌,
}
use gin_demo.Prelude.Text.{Text, text_eq, to_lower}
use gin_demo.Sql.{World, choose, pure}
use gin_demo.Sql.Keeps.{
  Keeps, Keeps-bind, Keeps-choose, Keeps-pure, Keeps-query, Keeps-update, Keeps-now, Keeps-ignore,
  Keeps-branch,
}
use gin_demo.Schema.{Db}
use gin_demo.Tx.Types.{Row, Status, status_tag}
use gin_demo.Tx.Store.{is_status, unsent, as_pending, mark_broadcast_pending, get_by_hash}
use gin_demo.Tx.Outbox.{Sighting, moved, transition_status, update_fields, insert_outbox}
use gin_demo.Tx.Node.{TxNode, Receipt}
use gin_demo.Tx.Tracker.{
  Tracker, with_receipt, probe, track_on, track_one, confirmations_at, has_raw,
}
use gin_demo.Tx.Tracker.Handlers.{HandlersKeep, told-Keeps, exchange_handler}
use gin_demo.Exchange.Withdraw.Beside.{handlers-beside}
use gin_demo.Sql.Yields.{Yields, Keeps-answer, Yields-pure, Yields-then}

-- the row of the hash, if it is confirmed
abbrev pub is_confirmed : Text → Row → Bool
is_confirmed hash r = is_status Status.confirmed r && text_eq r.tx_hash hash

-- No row of the hash is confirmed.
abbrev pub Unconfirmed : Text → Db → Type 0
Unconfirmed hash d = any (is_confirmed hash) d.tracker.rows ≡ false

still :
    (hash : Text) (test : Row → Bool) (f : Row → Row) (rows : List Row)
    → ((r : Row) → is_confirmed hash (f r) ≡ false)
    → any (is_confirmed hash) rows ≡ false
    → any (is_confirmed hash) (update_where test f rows) ≡ false
still hash test f [] kept h = refl
still hash test f (r ∷ rows) kept h = elim (Bool-cases (test r)) [
  | inl hit ↦ rw (hit, kept r) (still hash test f rows kept (ground (arith, h)))
  | inr miss ↦
      let first : is_confirmed hash r ≡ false = ground (arith, h) in
      rw (miss, first) (still hash test f rows kept (ground (arith, h)))
]

-- a status other than confirmed
abbrev IsOther : Status → Type 0
IsOther s = (status_tag s == status_tag Status.confirmed) ≡ false

module _ (hash : Text) where
  mark-Keeps : (h : Text) → Keeps (Unconfirmed hash) (mark_broadcast_pending h)
  unfolding mark_broadcast_pending
  mark-Keeps h = Keeps-bind Keeps-now λ at.
      Keeps-update _ (λ d. refl)
        λ d p. still hash (unsent h) (as_pending at) d.tracker.rows (λ r. refl) p

  update-Keeps :
      (h : Text) (s : Status) (seen : Sighting)
      → IsOther s
      → Keeps (Unconfirmed hash) (update_fields h s seen)
  unfolding update_fields
  update-Keeps h s seen other = Keeps-bind Keeps-now λ at.
      Keeps-update _ (λ d. refl)
        λ d p.
          still hash (λ x. text_eq x.tx_hash (to_lower h)) (moved s seen at) d.tracker.rows
            (λ r. rw other refl) p

  transition-Keeps :
      (h : Text) (s : Status) (seen : Sighting)
      → IsOther s
      → Keeps (Unconfirmed hash) (transition_status h s seen)
  unfolding transition_status get_by_hash insert_outbox
  transition-Keeps h s seen other = Keeps-bind (Keeps-query _) λ old.
      Keeps-choose _ _ _ (update-Keeps h s seen other) (
        Keeps-bind (update-Keeps h s seen other) λ _.
          Keeps-choose _ _ _ (Keeps-pure tt)
            (Keeps-bind Keeps-now λ at. Keeps-update _ (λ d. refl) (λ d p. p)))

-- The receipt does not confirm: there is none, it says that the call failed, or its block is not yet
-- the first of `depth` blocks up to the head.
abbrev pub DoesNotConfirm : ℕ → ℕ → Option Receipt → Type 0
DoesNotConfirm depth head none = Unit
DoesNotConfirm depth head (some rc) = (rc.failed ≡ true) ⊎ (head + 1 < rc.block_number + depth)

shallow-open :
    (depth head block : ℕ)
    → 0 < depth
    → head + 1 < block + depth
    → leb depth (confirmations_at head block) ≡ false
shallow-open depth head block positive shallow = ground arith

-- What the tracking goes on with is the row of the same transaction.
abbrev SameTx : Text → Option Row → Type 0
SameTx own none = Unit
SameTx own (some row) = row.tx_hash ≡ own

module _ (hash : Text) (t : Tracker) (handlers : HandlersKeep (Unconfirmed hash) t.withdraw)
    (positive : 0 < t.confirm_depth) where
  with_receipt-Keeps :
      (row : Row) (head : ℕ) (rc : Option Receipt)
      → DoesNotConfirm t.confirm_depth head rc
      → Keeps (Unconfirmed hash) (with_receipt t row head rc)
  with_receipt-Keeps row head none kept = Keeps-bind Keeps-now λ at.
      Keeps-choose _ _ _
        (Keeps-bind (Keeps-ignore _ (transition-Keeps hash _ Status.dropped _ refl))
          λ _. (told-Keeps (Unconfirmed hash) t handlers row row.tx_hash).1)
        (Keeps-pure tt)
  with_receipt-Keeps row head (some rc) kept =
      Keeps-branch _ _ _
        (λ _.
          Keeps-bind (Keeps-ignore _ (transition-Keeps hash _ Status.failed _ refl))
            λ _. (told-Keeps (Unconfirmed hash) t handlers row row.tx_hash).1)
        λ passed.
          Keeps-branch _ _ _
            (λ deep. elim kept [
              | inl failed ↦ cc
              | inr shallow ↦
                  let not_yet =
                    shallow-open t.confirm_depth head rc.block_number positive shallow in
                  cc
            ])
            (λ _. transition-Keeps hash _ Status.pending _ refl)

  probe-Yields :
      (node : TxNode) (row : Row) (known : Option Bool)
      → Yields (Unconfirmed hash) (probe node row known) (SameTx row.tx_hash)
  probe-Yields node row none = Yields-pure _ (kept_row (has_raw row.signed_raw_hex))
    where
      kept_row : (raw : Bool) → SameTx row.tx_hash (if raw then none else some row)
      kept_row true = tt
      kept_row false = refl
  probe-Yields node row (some pending) =
      Yields-then (Keeps-ignore _ (mark-Keeps hash _)) λ _. Yields-pure _ refl

  going-Yields :
      (node : TxNode) (row : Row) (unsent_yet : Bool)
      → Yields
          (Unconfirmed hash)
          (choose unsent_yet
            (probe node row (node.transaction_by_hash row.tx_hash))
            (pure (some row)))
          (SameTx row.tx_hash)
  unfolding choose
  going-Yields node row true = probe-Yields node row _
  going-Yields node row false = Yields-pure _ refl

  track_on-Keeps :
      (node : TxNode) (own : Text) (head : ℕ) (going : Option Row)
      → DoesNotConfirm t.confirm_depth head (node.transaction_receipt own)
      → SameTx own going
      → Keeps (Unconfirmed hash) (track_on t node head going)
  track_on-Keeps node own head none shallow same = Keeps-pure tt
  track_on-Keeps node own head (some row) shallow same =
      with_receipt-Keeps row head _ (rw same shallow)

-- A transaction that is not confirmed stays so, however the tracking of a row ends, while the node has
-- no receipt of the row's transaction that confirms it: none, one that says that the call failed, or
-- one whose block is not the first of as many blocks up to the head as the depth says. The depth is
-- positive, and the withdrawal handlers do not confirm a transaction themselves.
pub track_one-Unconfirmed :
    (hash : Text) (t : Tracker) (node : TxNode) (row : Row) (head : ℕ) (w : World Db)
    → HandlersKeep (Unconfirmed hash) t.withdraw
    → 0 < t.confirm_depth
    → DoesNotConfirm t.confirm_depth head (node.transaction_receipt row.tx_hash)
    → Unconfirmed hash w.db
    → Unconfirmed hash (track_one t node row head w).1.db
unfolding track_one
track_one-Unconfirmed hash t node row head w handlers positive shallow start =
    (Keeps-answer (going-Yields hash t handlers positive node row _) λ going same.
        track_on-Keeps hash t handlers positive node row.tx_hash head going shallow same).at
      w start

-- The exchange's service, as the handler, leaves the tracker's rows alone.
pub exchange_handler-Unconfirmed :
    (hash : Text) → HandlersKeep (Unconfirmed hash) (some exchange_handler)
exchange_handler-Unconfirmed hash = handlers-beside (Unconfirmed hash) (λ d tables h. h)
