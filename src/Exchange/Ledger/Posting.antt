-- ===== src/Exchange/Ledger/Posting.antt =====
-- What a successful `apply_ledger` has done to the tables.
use gin_demo.Prelude.{ℕ, suc, ◌≡◌, refl, Bool, true, false, not, some, ◌∷◌}
use gin_demo.Prelude.Int.{ℤ, is_negative}
use gin_demo.Prelude.Text.{Text}
use gin_demo.Sql.{ok}
use gin_demo.Sql.Rules.{
  From, From-guard-then, From-total-then, From-total, From-now-then, From-query-then,
  From-lift-then,
}
use gin_demo.Schema.{Db}
use gin_demo.Exchange.Wei.{parse_wei, wei_string, wei_add}
use gin_demo.Exchange.Ledger.{
  LedgerOp, norm_token, find_account, available_of, frozen_of, upsert_account, entry_of,
  write_account, write_entry, post_entry, apply_normalised, apply_ledger,
}

-- the tables after both writes
abbrev pub posted : Text → Text → LedgerOp → ℕ → ℤ → ℤ → Db → Db
posted user token op at avail frozen db =
    let a = wei_string (some (wei_add avail op.delta_avail)) in
    let f = wei_string (some (wei_add frozen op.delta_frozen)) in
    let t = db.exchange in
    record db {
      exchange = record t {
        accounts = upsert_account user token a f at t.accounts;
        entries = entry_of user token op a f at t.next_entry_id ∷ t.entries;
        next_entry_id = suc t.next_entry_id;
      };
    }

pub record Posted (user token : Text) (op : LedgerOp) (before after : Db) : Type 0 where
  pub at : ℕ
  pub avail : ℤ
  pub frozen : ℤ
  pub read_avail :
      parse_wei (available_of (find_account user token before.exchange.accounts)) ≡ ok avail
  pub read_frozen :
      parse_wei (frozen_of (find_account user token before.exchange.accounts)) ≡ ok frozen
  pub avail_covered : is_negative (wei_add avail op.delta_avail) ≡ false
  pub frozen_covered : is_negative (wei_add frozen op.delta_frozen) ≡ false
  pub written : after ≡ posted user token op at avail frozen before

not-true : (b : Bool) → not b ≡ true → b ≡ false
not-true true h = cc
not-true false h = refl

module _ (user token : Text) (op : LedgerOp) (d : Db) where
  post_entry-Posted :
      (at : ℕ) (avail frozen : ℤ)
      → parse_wei (available_of (find_account user token d.exchange.accounts)) ≡ ok avail
      → parse_wei (frozen_of (find_account user token d.exchange.accounts)) ≡ ok frozen
      → From d (post_entry user token op at avail frozen) (λ _ d'. Posted user token op d d')
  unfolding post_entry write_account write_entry
  post_entry-Posted at avail frozen ra rf = From-guard-then _ _ λ ca. From-guard-then _ _ λ cf.
      From-total-then _ _ refl (
        From-total _ refl (record {
          at = at;
          avail = avail;
          frozen = frozen;
          read_avail = ra;
          read_frozen = rf;
          avail_covered = not-true _ ca;
          frozen_covered = not-true _ cf;
          written = refl;
        }))

  pub apply_normalised-Posted :
      From d (apply_normalised user token op) (λ _ d'. Posted user token op d d')
  unfolding apply_normalised
  apply_normalised-Posted = From-now-then λ at. From-query-then _ λ account e.
      From-lift-then _ λ avail ra. From-lift-then _ λ frozen rf.
        let found : find_account user token d.exchange.accounts ≡ account = cc in
        post_entry-Posted at avail frozen (rw found ra) (rw found rf)

-- The entry point normalises the token first.
pub apply_ledger-Posted :
    (user token : Text) (op : LedgerOp) (d : Db)
    → From d (apply_ledger user token op) (λ _ d'. Posted user (norm_token token) op d d')
unfolding apply_ledger
apply_ledger-Posted user token op d = apply_normalised-Posted user (norm_token token) op d
