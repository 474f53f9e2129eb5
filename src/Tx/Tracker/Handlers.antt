-- ===== src/Tx/Tracker/Handlers.antt =====
-- The tracker with the exchange's handlers: what the handlers keep of the exchange's tables, a tracked
-- transaction keeps.
use gin_demo.Prelude.{ℕ, ◌≡◌, refl, Bool, Option, none, some, List, [], ◌∷◌}
use gin_demo.Prelude.Text.{Text}
use gin_demo.Sql.{World}
use gin_demo.Sql.Keeps.{
  Keeps, Keeps-bind, Keeps-choose, Keeps-pure, Keeps-query, Keeps-update, Keeps-now, Keeps-ignore,
  Keeps-lift,
}
use gin_demo.Schema.{Db, Action}
use gin_demo.Exchange.Ledger.Audit.{IsAudited}
use gin_demo.Exchange.Withdraw.{on_withdraw_tx_confirmed, on_withdraw_tx_failed}
use gin_demo.Exchange.Withdraw.Audit.{handlers-IsAudited}
use gin_demo.Tx.Types.{Row, Status, OutboxExtra}
use gin_demo.Tx.Store.{mark_broadcast_pending, get_by_hash, list_trackable}
use gin_demo.Tx.Outbox.{
  Sighting, transition_status, update_fields, insert_outbox, mark_replaced_siblings, replace_all,
}
use gin_demo.Tx.Node.{TxNode, Receipt}
use gin_demo.Tx.Tracker.{
  WithdrawHandler, Tracker, tell, with_receipt, probe, track_on, track_one, track_all, track_batch,
  run_once,
}

-- `P` says nothing of the tracker's tables.
abbrev IgnoresTracker : (Db → Type 0) → Type 0
IgnoresTracker P = (d d' : Db) → d'.exchange ≡ d.exchange → P d → P d'

-- Both handlers, if there are any, keep `P`.
abbrev pub HandlersKeep : (Db → Type 0) → Option WithdrawHandler → Type 0
HandlersKeep P none = Unit
HandlersKeep P (some h) =
    (hash : Text)
    → Keeps P (h.on_withdraw_tx_confirmed hash) × Keeps P (h.on_withdraw_tx_failed hash)

tell-Keeps :
    (P : Db → Type 0) (withdraw : Option WithdrawHandler) (row : Row)
    (call : WithdrawHandler → Action (Unit {0}))
    → ((h : WithdrawHandler) → withdraw ≡ some h → Keeps P (call h))
    → Keeps P (tell withdraw row call)
tell-Keeps P none row call keep = Keeps-pure tt
tell-Keeps P (some h) row call keep =
    Keeps-choose _ _ _ (Keeps-ignore _ (keep h refl)) (Keeps-pure tt)

module _ (P : Db → Type 0) (local : IgnoresTracker P) where
  mark-Keeps : (hash : Text) → Keeps P (mark_broadcast_pending hash)
  unfolding mark_broadcast_pending
  mark-Keeps hash = Keeps-bind Keeps-now λ at. Keeps-update _ (λ d. refl) (λ d h. local d _ refl h)

  insert_outbox-Keeps :
      (hash : Text) (biz : Option Text) (old new : Status) (extra : OutboxExtra)
      → Keeps P (insert_outbox hash biz old new extra)
  unfolding insert_outbox
  insert_outbox-Keeps hash biz old new extra =
      Keeps-bind Keeps-now λ at. Keeps-update _ (λ d. refl) (λ d h. local d _ refl h)

  update-Keeps :
      (hash : Text) (status : Status) (seen : Sighting) → Keeps P (update_fields hash status seen)
  unfolding update_fields
  update-Keeps hash status seen =
      Keeps-bind Keeps-now λ at. Keeps-update _ (λ d. refl) (λ d h. local d _ refl h)

  transition-Keeps :
      (hash : Text) (status : Status) (seen : Sighting)
      → Keeps P (transition_status hash status seen)
  unfolding transition_status get_by_hash
  transition-Keeps hash status seen = Keeps-bind (Keeps-query _) λ old.
      Keeps-choose _ _ _ (update-Keeps hash status seen) (
        Keeps-bind (update-Keeps hash status seen)
          λ _. Keeps-choose _ _ _ (Keeps-pure tt) (insert_outbox-Keeps hash _ _ _ _))

  replace_all-Keeps :
      (winner : Text) (at : ℕ) (rows : List Row) → Keeps P (replace_all winner at rows)
  unfolding replace_all
  replace_all-Keeps winner at [] = Keeps-pure tt
  replace_all-Keeps winner at (r ∷ rows) =
      Keeps-bind (Keeps-update _ (λ d. refl) (λ d h. local d _ refl h))
        λ _. Keeps-bind (insert_outbox-Keeps _ _ _ _ _) λ _. replace_all-Keeps winner at rows

  siblings-Keeps :
      (from : Text) (nonce : ℕ) (winner : Text) → Keeps P (mark_replaced_siblings from nonce winner)
  unfolding mark_replaced_siblings
  siblings-Keeps from nonce winner =
      Keeps-bind Keeps-now λ at. Keeps-bind (Keeps-query _) λ rows. replace_all-Keeps _ at rows

module _ (P : Db → Type 0) (t : Tracker) (handlers : HandlersKeep P t.withdraw) where
  pub told-Keeps :
      (row : Row) (hash : Text)
      → Keeps P (tell t.withdraw row (λ h. h.on_withdraw_tx_confirmed hash))
        × Keeps P (tell t.withdraw row (λ h. h.on_withdraw_tx_failed hash))
  told-Keeps row hash = go t.withdraw handlers
    where
      go :
          (withdraw : Option WithdrawHandler)
          → HandlersKeep P withdraw
          → Keeps P (tell withdraw row (λ h. h.on_withdraw_tx_confirmed hash))
            × Keeps P (tell withdraw row (λ h. h.on_withdraw_tx_failed hash))
      go none keep = (Keeps-pure tt, Keeps-pure tt)
      go (some h) keep = (
        Keeps-choose _ _ _ (Keeps-ignore _ ((keep hash).0)) (Keeps-pure tt),
        Keeps-choose _ _ _ (Keeps-ignore _ ((keep hash).1)) (Keeps-pure tt),
      )

module _ (P : Db → Type 0) (local : IgnoresTracker P) (t : Tracker)
    (handlers : HandlersKeep P t.withdraw) where
  with_receipt-Keeps :
      (row : Row) (head : ℕ) (rc : Option Receipt) → Keeps P (with_receipt t row head rc)
  with_receipt-Keeps row head none = Keeps-bind Keeps-now λ at.
      Keeps-choose _ _ _
        (Keeps-bind (Keeps-ignore _ (transition-Keeps P local _ _ _))
          λ _. (told-Keeps P t handlers row row.tx_hash).1)
        (Keeps-pure tt)
  with_receipt-Keeps row head (some rc) =
      Keeps-choose _ _ _
        (Keeps-bind (Keeps-ignore _ (transition-Keeps P local _ _ _))
          λ _. (told-Keeps P t handlers row row.tx_hash).1)
        (Keeps-choose _ _ _
          (Keeps-bind (Keeps-ignore _ (siblings-Keeps P local _ _ _)) λ _.
            Keeps-bind (transition-Keeps P local _ _ _)
              λ _. (told-Keeps P t handlers row row.tx_hash).0)
          (transition-Keeps P local _ _ _))

  probe-Keeps : (node : TxNode) (row : Row) (known : Option Bool) → Keeps P (probe node row known)
  probe-Keeps node row none = Keeps-pure _
  probe-Keeps node row (some pending) =
      Keeps-bind (Keeps-ignore _ (mark-Keeps P local _)) λ _. Keeps-pure _

  track_on-Keeps :
      (node : TxNode) (head : ℕ) (going : Option Row) → Keeps P (track_on t node head going)
  track_on-Keeps node head none = Keeps-pure tt
  track_on-Keeps node head (some row) = with_receipt-Keeps row head _

  pub track_one-Keeps : (node : TxNode) (row : Row) (head : ℕ) → Keeps P (track_one t node row head)
  unfolding track_one
  track_one-Keeps node row head =
      Keeps-bind (Keeps-choose _ _ _ (probe-Keeps node row _) (Keeps-pure _))
        (track_on-Keeps node head)

  track_all-Keeps :
      (node : TxNode) (head : ℕ) (rows : List Row) → Keeps P (track_all t node head rows)
  unfolding track_all
  track_all-Keeps node head [] = Keeps-pure tt
  track_all-Keeps node head (row ∷ rows) =
      Keeps-bind (Keeps-ignore _ (track_one-Keeps node row head))
        λ _. track_all-Keeps node head rows

  track_batch-Keeps : (node : TxNode) (rows : List Row) → Keeps P (track_batch t node rows)
  track_batch-Keeps node [] = Keeps-pure tt
  track_batch-Keeps node (row ∷ rows) =
      Keeps-bind (Keeps-lift _) λ head. track_all-Keeps node head (row ∷ rows)

  pub run_once-Keeps : (node : TxNode) → Keeps P (run_once t node)
  unfolding run_once list_trackable
  run_once-Keeps node = Keeps-bind (Keeps-query _) (track_batch-Keeps node)

-- the exchange's service as the handler
abbrev pub exchange_handler : WithdrawHandler
exchange_handler = record {
  on_withdraw_tx_confirmed = on_withdraw_tx_confirmed;
  on_withdraw_tx_failed = on_withdraw_tx_failed;
}

-- However a round of the tracker ends, with the exchange's service as its handler and on whatever the
-- node answers, every balance equals the sum of its journal entries again if it did before.
pub run_once-IsAudited :
    (t : Tracker) (node : TxNode) (w : World Db)
    → t.withdraw ≡ some exchange_handler
    → IsAudited w.db
    → IsAudited (run_once t node w).1.db
run_once-IsAudited t node w handled audited =
    (run_once-Keeps IsAudited (λ d d' same h. rw same h) t
        (rw handled (λ hash. handlers-IsAudited hash)) node).at
      w audited
