-- ===== src/Exchange/Ledger/Outcome.antt =====
-- When a posting goes through: the check of sufficient balance decides alone, if no statement fails.
use gin_demo.Prelude.{◌≡◌, refl, Bool, not, ◌&&◌, [], if◌then◌else◌, Bool-cases, inl, inr}
use gin_demo.Prelude.Int.{ℤ, is_negative}
use gin_demo.Prelude.Text.{Text}
use gin_demo.Sql.{ok, err, insufficient_balance, World, ◌>>=◌}
use gin_demo.Schema.{Db}
use gin_demo.Exchange.Wei.{parse_wei, wei_add}
use gin_demo.Exchange.Ledger.{
  LedgerOp, norm_token, find_account, available_of, frozen_of, apply_ledger, apply_normalised,
  post_entry, write_account, write_entry,
}
use gin_demo.Exchange.Ledger.Posting.{posted}

-- Both balances stay at zero or above.
abbrev pub is_covered : LedgerOp → ℤ → ℤ → Bool
is_covered op avail frozen =
    not (is_negative (wei_add avail op.delta_avail))
    && not (is_negative (wei_add frozen op.delta_frozen))

-- With no failing statement, on an account whose balances read as `avail` and `frozen`: a posting
-- that both balances cover succeeds, with the new balances and the entry written; any other is
-- refused for insufficient balance, and nothing is written.
pub apply_ledger-outcome :
    (user token : Text) (op : LedgerOp) (avail frozen : ℤ) (w : World Db)
    → w.faults ≡ []
    → parse_wei (available_of (find_account user (norm_token token) w.db.exchange.accounts))
      ≡ ok avail
    → parse_wei (frozen_of (find_account user (norm_token token) w.db.exchange.accounts))
      ≡ ok frozen
    → ((apply_ledger user token op w).0
        ≡ (if is_covered op avail frozen then ok tt else err insufficient_balance))
      × ((apply_ledger user token op w).1.db ≡ (
          if is_covered op avail frozen
          then posted user (norm_token token) op w.clock avail frozen w.db
          else w.db))
unfolding apply_ledger apply_normalised post_entry ◌>>=◌ write_account write_entry
apply_ledger-outcome user token op avail frozen w calm ra rf =
    elim (Bool-cases (is_negative (wei_add avail op.delta_avail))) [
      | inl short ↦ rw (calm, ra, rf, short) (refl, refl)
      | inr enough ↦ elim (Bool-cases (is_negative (wei_add frozen op.delta_frozen))) [
        | inl short ↦ rw (calm, ra, rf, enough, short) (refl, refl)
        | inr covered ↦ rw (calm, ra, rf, enough, covered) (refl, refl)
      ]
    ]
