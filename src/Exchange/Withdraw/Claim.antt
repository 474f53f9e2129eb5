-- ===== src/Exchange/Withdraw/Claim.antt =====
-- A withdrawal is taken for broadcasting at most once: the conditional update of service.go's
-- `ProcessApprovedWithdraw` is the claim.
use gin_demo.Prelude.{
  ℕ, ◌≡◌, refl, Bool, false, some, List, [], ◌∷◌, ◌==◌, All, count_where, update_where, arith,
}
use gin_demo.Sql.{Error, err, World, ◌>>=◌}
use gin_demo.Prelude.Text.{Text}
use gin_demo.Sql.Rules.{From, From-pure, From-call, From-total-then, From-now-then}
use gin_demo.Sql.Keeps.{Keeps, Keeps-bind, Keeps-exec, Keeps-now, Keeps-pure}
use gin_demo.Sql.Stops.{Stops, Stops-bind, Stops-guard, Stops-now}
use gin_demo.Schema.{Db}
use gin_demo.Exchange.Types.{WithdrawRequest, WithdrawStatus, withdraw_tag}
use gin_demo.Exchange.Store.Withdraws.{is_expected, moved_to, update_withdraw_status_if}
use gin_demo.Exchange.Withdraw.Broadcast.{process_approved_withdraw}
use gin_demo.Exchange.Withdraw.{Outside, Settings, approve_withdraw}

-- No stored row with the id has the status.
abbrev pub NoneIn : WithdrawStatus → ℕ → Db → Type 0
NoneIn s id d = All (λ x. is_expected id (some s) x ≡ false) d.exchange.withdraws

none_counted :
    (test : WithdrawRequest → Bool) (rows : List WithdrawRequest)
    → All (λ x. test x ≡ false) rows
    → count_where test rows ≡ 0
none_counted test [] h = refl
none_counted test (x ∷ rows) h = ground (arith, none_counted test rows h.1)

none_changed :
    (test : WithdrawRequest → Bool) (f : WithdrawRequest → WithdrawRequest)
    (rows : List WithdrawRequest)
    → All (λ x. test x ≡ false) rows
    → update_where test f rows ≡ rows
none_changed test f [] h = refl
none_changed test f (x ∷ rows) h = ground (arith, none_changed test f rows h.1)

none_left :
    (s t : WithdrawStatus) (id at : ℕ) (rows : List WithdrawRequest)
    → (withdraw_tag t == withdraw_tag s) ≡ false
    → All
        (λ x. is_expected id (some s) x ≡ false)
        (update_where (is_expected id (some s)) (moved_to t at (λ x. x)) rows)
none_left s t id at [] h = tt
none_left s t id at (x ∷ rows) h = (ground arith, none_left s t id at rows h)

-- A conditional move out of a status leaves no row of that id in it.
pub move-NoneIn :
    (s t : WithdrawStatus) (id : ℕ) (d : Db)
    → (withdraw_tag t == withdraw_tag s) ≡ false
    → From d (update_withdraw_status_if id (some s) t (λ x. x)) (λ _ d'. NoneIn s id d')
unfolding update_withdraw_status_if
move-NoneIn s t id d h =
    From-now-then
      λ at. From-total-then _ _ refl (From-pure _ (none_left s t id at d.exchange.withdraws h))

missed_claim :
    (s t : WithdrawStatus) (id : ℕ) (f : WithdrawRequest → WithdrawRequest) (d : Db)
    → NoneIn s id d
    → From d (update_withdraw_status_if id (some s) t f) (λ hit _. hit ≡ false)
unfolding update_withdraw_status_if
missed_claim s t id f d h = From-now-then λ at.
    From-total-then _ _ refl
      (From-pure _ (rw (none_counted (is_expected id (some s)) d.exchange.withdraws h) refl))

-- Of two attempts to move a withdrawal out of a status, one after the other, the second one never
-- hits a row, if the move does lead out of that status.
pub move_twice-misses :
    (s t : WithdrawStatus) (id : ℕ) (d : Db)
    → (withdraw_tag t == withdraw_tag s) ≡ false
    → From d
        (update_withdraw_status_if id (some s) t (λ x. x) >>= λ _.
          update_withdraw_status_if id (some s) t (λ x. x))
        (λ hit _. hit ≡ false)
move_twice-misses s t id d h =
    From-call (move-NoneIn s t id d h) λ _ d1 none_in. missed_claim s t id (λ x. x) d1 none_in

kept_rows :
    (s t : WithdrawStatus) (id at : ℕ) (f : WithdrawRequest → WithdrawRequest) (d : Db)
    → NoneIn s id d
    → record d {
      exchange = record d.exchange {
        withdraws = update_where (is_expected id (some s)) (moved_to t at f) d.exchange.withdraws;
      };
    }
      ≡ d
kept_rows s t id at f d h =
    rw (none_changed (is_expected id (some s)) (moved_to t at f) d.exchange.withdraws h) refl

missed-Keeps :
    (s t : WithdrawStatus) (id : ℕ) (f : WithdrawRequest → WithdrawRequest) (d : Db)
    → NoneIn s id d
    → Keeps (λ x. x ≡ d) (update_withdraw_status_if id (some s) t f)
unfolding update_withdraw_status_if
missed-Keeps s t id f d h = Keeps-bind Keeps-now λ at.
    Keeps-bind
      (Keeps-exec _ (λ d1 e n d2 r. let kept = kept_rows s t id at f d h in cc (rw e at r)))
      (λ n. Keeps-pure _)

stops :
    (o : Outside) (s : Settings) (w : WithdrawRequest) (d : Db)
    → NoneIn WithdrawStatus.approved w.id d
    → Stops d (process_approved_withdraw o s w)
unfolding process_approved_withdraw
stops o s w d h = Stops-guard _ _ λ approved. Stops-guard _ _ λ configured.
    Stops-bind (missed_claim WithdrawStatus.approved WithdrawStatus.broadcasting w.id (λ x. x) d h)
      (missed-Keeps WithdrawStatus.approved WithdrawStatus.broadcasting w.id (λ x. x) d h)
      (λ hit d1 r k. rw r (Stops-guard false _ λ impossible. cc))

-- Processing a withdrawal of which no stored row is approved (another worker has claimed it, say)
-- always fails and leaves the tables as they are, whatever the wallets, the signer and the sends
-- would do: the money is not sent again.
pub process_approved-refused :
    (o : Outside) (s : Settings) (w : WithdrawRequest) (world : World Db)
    → NoneIn WithdrawStatus.approved w.id world.db
    → (e : Error) × ((process_approved_withdraw o s w world).0 ≡ err e)
      × ((process_approved_withdraw o s w world).1.db ≡ world.db)
process_approved-refused o s w world h = (stops o s w world.db h).at world refl

approval-Stops :
    (id : ℕ) (reviewer : Text) (d : Db)
    → NoneIn WithdrawStatus.pending_review id d
    → Stops d (approve_withdraw id reviewer)
unfolding approve_withdraw
approval-Stops id reviewer d h = Stops-now λ at.
    Stops-bind (missed_claim WithdrawStatus.pending_review WithdrawStatus.approved id _ d h)
      (missed-Keeps WithdrawStatus.pending_review WithdrawStatus.approved id _ d h)
      (λ hit d1 r k. rw r (Stops-guard false _ λ impossible. cc))

-- Approving a withdrawal of which no stored row is waiting for a review always fails and leaves the
-- tables as they are.
pub approve_withdraw-refused :
    (id : ℕ) (reviewer : Text) (w : World Db)
    → NoneIn WithdrawStatus.pending_review id w.db
    → (e : Error) × ((approve_withdraw id reviewer w).0 ≡ err e)
      × ((approve_withdraw id reviewer w).1.db ≡ w.db)
approve_withdraw-refused id reviewer w h = (approval-Stops id reviewer w.db h).at w refl
