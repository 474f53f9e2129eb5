-- ===== src/Tx/Store/Terminal.antt =====
-- A transaction that has reached a terminal status keeps it under the statements of the broadcast.
use gin_demo.Prelude.{
  ◌≡◌, refl, Bool, true, false, ◌||◌, some, List, [], ◌∷◌, ◌==◌, find_first, update_where, any,
  arith, any-find_first, Bool-cases, inl, inr, sym, ◌∙◌, ap,
}
use gin_demo.Prelude.Text.{Text, text_eq, text_eq_iff}
use gin_demo.Sql.{World, pure, ◌>>◌, exec, ignore}
use gin_demo.Sql.Keeps.{Keeps, Keeps-bind, Keeps-now, Keeps-exec, Keeps-pure, Keeps-ignore}
use gin_demo.Schema.{Db, Action}
use gin_demo.Tx.Types.{Row, Status, InsertParams, status_tag}
use gin_demo.Tx.Store.{
  is_terminal, merged, clashes, new_row, upsert_row, set_rows, change_rows, insert_submitting,
  unsent, mark_broadcast_pending, mark_broadcast_failed, as_pending, as_broadcast_failed,
  first_status, increment_broadcast_retry,
}

abbrev pub has_hash : Text → Row → Bool
has_hash hash r = text_eq r.tx_hash hash

-- The table has the transaction, in the status `s`.
abbrev pub StatusIn : Text → Status → List Row → Type 0
StatusIn hash s rows = (r : Row) × (find_first (has_hash hash) rows ≡ some r) × (r.status ≡ s)

-- A change that keeps the hash, and the status `s` of the rows it is made to.
abbrev KeepsStatus : Status → (Row → Bool) → (Row → Row) → Type 0
KeepsStatus s test f =
    (r : Row) → test r ≡ true → ((f r).tx_hash ≡ r.tx_hash) × (r.status ≡ s → (f r).status ≡ s)

kept_status : {s : Status} (x r : Row) → r.status ≡ s → some x ≡ some r → x.status ≡ s
kept_status x r h e = let same : x ≡ r = cc in rw same h

kept_in :
    (hash : Text) (s : Status) (test : Row → Bool) (f : Row → Row) (rows : List Row)
    → KeepsStatus s test f
    → StatusIn hash s rows
    → StatusIn hash s (update_where test f rows)
kept_in hash s test f [] k (r, e, h) = cc
kept_in hash s test f (x ∷ rows) k (r, e, h) = elim (Bool-cases (has_hash hash x)) [
  | inl here ↦ elim (Bool-cases (test x)) [
    | inl hit ↦
        let same : r ≡ x = let found = rw here at e in cc in
        let there = ap (λ t. text_eq t hash) (k x hit).0 ∙ here in
        rw (hit, there) (f x, refl, (k x hit).1 (ap (λ (y : Row). y.status) (sym same) ∙ h))
    | inr miss ↦ rw (miss, here) (x, refl, kept_status x r h (rw here at e))
  ]
  | inr elsewhere ↦
      let rest = kept_in hash s test f rows k (r, rw elsewhere at e, h) in
      elim (Bool-cases (test x)) [
        | inl hit ↦
            let there = ap (λ t. text_eq t hash) (k x hit).0 ∙ elsewhere in rw (hit, there) rest
        | inr miss ↦ rw (miss, elsewhere) rest
      ]
]

added_in :
    (hash : Text) (s : Status) (new : Row) (rows : List Row)
    → any (λ old. text_eq old.tx_hash new.tx_hash) rows ≡ false
    → StatusIn hash s rows
    → StatusIn hash s (new ∷ rows)
added_in hash s new rows free (r, e, h) = elim (Bool-cases (has_hash hash new)) [
  | inl here ↦
      let same = (text_eq_iff new.tx_hash hash).0 here in
      let absent = sym (ap (λ t. any (has_hash t) rows) same) ∙ free in
      let present = any-find_first (has_hash hash) rows e in cc
  | inr elsewhere ↦ rw elsewhere (r, e, h)
]

merged_keeps :
    (s : Status) (new : Row) (test : Row → Bool)
    → is_terminal s ≡ true
    → KeepsStatus s test (merged new)
merged_keeps s new test t r hit = (refl, λ h. rw (h, t) refl)

upsert_in :
    (hash : Text) (s : Status) (new : Row) (rows : List Row)
    → is_terminal s ≡ true
    → StatusIn hash s rows
    → StatusIn hash s (upsert_row new rows)
upsert_in hash s new rows t h =
    elim (Bool-cases (any (λ old. text_eq old.tx_hash new.tx_hash) rows)) [
      | inl same ↦ rw same (kept_in hash s _ (merged new) rows (merged_keeps s new _ t) h)
      | inr free ↦ elim (Bool-cases (any (clashes new) rows)) [
        | inl clash ↦
            rw (free, clash) (kept_in hash s _ (merged new) rows (merged_keeps s new _ t) h)
        | inr fresh ↦ rw (free, fresh) (added_in hash s new rows free h)
      ]
    ]

-- The tracker has the transaction, in the status `s`.
abbrev pub TrackedAs : Text → Status → Db → Type 0
TrackedAs hash s d = StatusIn hash s d.tracker.rows

sent_before :
    (s : Status)
    → is_terminal s ≡ true
    → (status_tag s == status_tag Status.submitting
        || status_tag s == status_tag Status.broadcast_failed)
      ≡ false
sent_before Status.submitting t = cc
sent_before Status.broadcast_failed t = cc
sent_before Status.pending t = cc
sent_before Status.confirmed t = refl
sent_before Status.failed t = refl
sent_before Status.dropped t = refl
sent_before Status.replaced t = refl

unsent_keeps :
    (s : Status) (hash : Text) (f : Row → Row)
    → is_terminal s ≡ true
    → ((r : Row) → (f r).tx_hash ≡ r.tx_hash)
    → KeepsStatus s (unsent hash) f
unsent_keeps s hash f t same r hit =
    (same r, λ h. let settled = sent_before s t in let k = rw h at hit in ground arith)

module _ (hash : Text) (s : Status) (t : is_terminal s ≡ true) where
  insert-TrackedAs : (p : InsertParams) → Keeps (TrackedAs hash s) (insert_submitting p)
  unfolding insert_submitting
  insert-TrackedAs p = Keeps-bind Keeps-now λ at. Keeps-exec _ λ d h a d' e.
      let written : d' ≡ set_rows (upsert_row (new_row p (first_status p) at) d.tracker.rows) d =
        cc in
      rw written (upsert_in hash s _ d.tracker.rows t h)

  change-TrackedAs :
      (test : Row → Bool) (f : Row → Row)
      → KeepsStatus s test f
      → Keeps (TrackedAs hash s) (exec (change_rows test f))
  change-TrackedAs test f k = Keeps-exec _ λ d h a d' e.
      let written : d' ≡ set_rows (update_where test f d.tracker.rows) d = cc in
      rw written (kept_in hash s test f d.tracker.rows k h)

  sent-TrackedAs : (h : Text) → Keeps (TrackedAs hash s) (mark_broadcast_pending h)
  unfolding mark_broadcast_pending
  sent-TrackedAs h =
      Keeps-bind Keeps-now
        λ at. change-TrackedAs _ _ (unsent_keeps s h (as_pending at) t (λ r. refl))

  unsent-TrackedAs : (h m : Text) → Keeps (TrackedAs hash s) (mark_broadcast_failed h m)
  unfolding mark_broadcast_failed
  unsent-TrackedAs h m =
      Keeps-bind Keeps-now
        λ at. change-TrackedAs _ _ (unsent_keeps s h (as_broadcast_failed m at) t (λ r. refl))

  retry-TrackedAs : (h : Text) → Keeps (TrackedAs hash s) (increment_broadcast_retry h)
  unfolding increment_broadcast_retry
  retry-TrackedAs h = Keeps-bind Keeps-now λ at. change-TrackedAs _ _ (λ r hit. (refl, λ e. e))

-- A statement of the sending side.
pub data SendStep : Type 0 where
  submit : InsertParams → SendStep
  mark_sent : Text → SendStep
  mark_unsent : Text → Text → SendStep
  retry : Text → SendStep

unfoldable pub run_step : SendStep → Action (Unit {0})
run_step (SendStep.submit p) = insert_submitting p
run_step (SendStep.mark_sent h) = mark_broadcast_pending h
run_step (SendStep.mark_unsent h m) = mark_broadcast_failed h m
run_step (SendStep.retry h) = increment_broadcast_retry h

-- The statements that senders and reconcilers run, in any order, an error of one not stopping the
-- next.
unfoldable pub run_steps : List SendStep → Action (Unit {0})
unfolding run_step
run_steps [] = pure tt
run_steps (x ∷ rest) = ignore (run_step x) >> run_steps rest

step-TrackedAs :
    (hash : Text) (s : Status) (x : SendStep)
    → is_terminal s ≡ true
    → Keeps (TrackedAs hash s) (run_step x)
unfolding run_step
step-TrackedAs hash s (SendStep.submit p) t = insert-TrackedAs hash s t p
step-TrackedAs hash s (SendStep.mark_sent h) t = sent-TrackedAs hash s t h
step-TrackedAs hash s (SendStep.mark_unsent h m) t = unsent-TrackedAs hash s t h m
step-TrackedAs hash s (SendStep.retry h) t = retry-TrackedAs hash s t h

steps-TrackedAs :
    (hash : Text) (s : Status) (xs : List SendStep)
    → is_terminal s ≡ true
    → Keeps (TrackedAs hash s) (run_steps xs)
unfolding run_steps
steps-TrackedAs hash s [] t = Keeps-pure tt
steps-TrackedAs hash s (x ∷ rest) t =
    Keeps-bind (Keeps-ignore _ (step-TrackedAs hash s x t)) (λ _. steps-TrackedAs hash s rest t)

-- A tracked transaction that is confirmed, failed, dropped or replaced stays so, whatever
-- submissions, broadcast marks and retries follow, of this or other transactions, in any order and
-- with any of their statements failing.
pub run_steps-TrackedAs :
    (hash : Text) (s : Status) (xs : List SendStep) (w : World Db)
    → is_terminal s ≡ true
    → TrackedAs hash s w.db
    → TrackedAs hash s (run_steps xs w).1.db
run_steps-TrackedAs hash s xs w t h = (steps-TrackedAs hash s xs t).at w h
