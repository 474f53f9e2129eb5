-- ===== src/Exchange/Ledger/Audit.antt =====
-- The journal as the specification of the balances: what an account holds is what its entries add
-- up to, each entry read by what its type means.
use gin_demo.Prelude.{
  ℕ, ◌≡◌, refl, true, false, some, List, [], ◌∷◌, if◌then◌else◌, arith, ap, ◌∙◌, Bool-cases, inl,
  inr,
}
use gin_demo.Prelude.Int.{ℤ, pos, negsuc, neg, ◌+ℤ◌, is_negative}
use gin_demo.Prelude.Text.{Text, text_eq_iff}
use gin_demo.Sql.{Result, ok, err}
use gin_demo.Sql.Rules.{From, From-weaken, From-lift-then}
use gin_demo.Schema.{Db}
use gin_demo.Exchange.Types.{LedgerEntry, EntryType}
use gin_demo.Exchange.Wei.{wei_zero, parse_wei, wei_string, wei_add}
use gin_demo.Exchange.Wei.RoundTrip.{parse_wei-wei_string, parse_wei-pos}
use gin_demo.Exchange.Ledger.{
  LedgerOp, norm_token, find_account, available_of, frozen_of, entry_of, apply_ledger, credit_op,
  reverse_op, freeze_op, unfreeze_op, debit_op, payment_debit_op, payment_credit_op, post_amount,
}
use gin_demo.Exchange.Ledger.Accounts.{same_account, available_of-upsert, frozen_of-upsert}
use gin_demo.Exchange.Ledger.Posting.{Posted, apply_ledger-Posted}

-- what an entry of this type and amount does to the available balance
pub avail_delta : EntryType → ℤ → ℤ
avail_delta EntryType.deposit_credit x = x
avail_delta EntryType.deposit_reverse x = neg x
avail_delta EntryType.withdraw_freeze x = neg x
avail_delta EntryType.withdraw_unfreeze x = x
avail_delta EntryType.withdraw_debit x = pos 0
avail_delta EntryType.payment_debit x = neg x
avail_delta EntryType.payment_credit x = x

-- and to the frozen balance
pub frozen_delta : EntryType → ℤ → ℤ
frozen_delta EntryType.withdraw_freeze x = x
frozen_delta EntryType.withdraw_unfreeze x = neg x
frozen_delta EntryType.withdraw_debit x = neg x
frozen_delta _ x = pos 0

abbrev amount_or_zero : Result ℤ → ℤ
amount_or_zero (ok v) = v
amount_or_zero (err _) = pos 0

abbrev amount_of : LedgerEntry → ℤ
amount_of e = amount_or_zero (parse_wei e.amount_wei)

-- the sum of the deltas of the entries of account `(user, token)`
pub journal : (EntryType → ℤ → ℤ) → Text → Text → List LedgerEntry → ℤ
journal delta user token [] = pos 0
journal delta user token (e ∷ older) =
    let before = journal delta user token older in
    if same_account e.user_id e.token_address user token
    then before +ℤ delta e.entry_type (amount_of e)
    else before

-- Every balance of the table parses, and equals the journal's sum.
abbrev pub IsAudited : Db → Type 0
IsAudited db =
    (user token : Text)
    → (parse_wei (available_of (find_account user token db.exchange.accounts))
        ≡ ok (journal avail_delta user token db.exchange.entries))
      × (parse_wei (frozen_of (find_account user token db.exchange.accounts))
          ≡ ok (journal frozen_delta user token db.exchange.entries))

-- The deltas of the operation are those of its entry type.
pub record IsJournalled (op : LedgerOp) : Type 0 where
  pub size : ℕ
  pub amount_pos : op.amount ≡ pos size
  pub avail_matches : op.delta_avail ≡ avail_delta op.entry_type op.amount
  pub frozen_matches : op.delta_frozen ≡ frozen_delta op.entry_type op.amount

reparse : (v : ℤ) → is_negative v ≡ false → parse_wei (wei_string (some v)) ≡ ok v
reparse (pos n) h = parse_wei-wei_string n
reparse (negsuc n) h = cc

same_account-eq :
    (user token u t : Text) → same_account user token u t ≡ true → (user ≡ u) × (token ≡ t)
same_account-eq user token u t h = ground (arith, text_eq_iff user u, text_eq_iff token t)

module _ (delta : EntryType → ℤ → ℤ) (user token u t : Text) (op : LedgerOp) where
  -- the journal after one more entry
  journal-entry_of :
      (size : ℕ) (avail frozen : Text) (at id : ℕ) (older : List LedgerEntry)
      → op.amount ≡ pos size
      → journal delta u t (entry_of user token op avail frozen at id ∷ older) ≡ (
          if same_account user token u t
          then journal delta u t older +ℤ delta op.entry_type op.amount
          else journal delta u t older)
  unfolding journal
  journal-entry_of size avail frozen at id older e = rw (e, parse_wei-wei_string size) refl

  -- A balance and the journal move alike.
  tracks :
      (old change : ℤ) (read after : Text) (older newer : List LedgerEntry)
      → (user ≡ u → token ≡ t → old ≡ journal delta u t older)
      → parse_wei read ≡ ok (journal delta u t older)
      → is_negative (wei_add old change) ≡ false
      → change ≡ delta op.entry_type op.amount
      → after
        ≡ (if same_account user token u t then wei_string (some (wei_add old change)) else read)
      → journal delta u t newer ≡ (
          if same_account user token u t
          then journal delta u t older +ℤ delta op.entry_type op.amount
          else journal delta u t older)
      → parse_wei after ≡ ok (journal delta u t newer)
  unfolding wei_add
  tracks old change read after older newer sum audited covered same written entry =
      elim (Bool-cases (same_account user token u t)) [
        | inl here ↦
            let (eu, et) = same_account-eq user token u t here in
            let moved : wei_add old change
                ≡ journal delta u t older +ℤ delta op.entry_type op.amount =
              rw (sum eu et, same) refl in
            rw (written, entry, here) (reparse _ covered ∙ ap ok moved)
        | inr elsewhere ↦ rw (written, entry, elsewhere) audited
      ]

-- Posting a journalled operation keeps the books audited.
pub Posted-IsAudited :
    (user token : Text) (op : LedgerOp) {d d' : Db}
    → IsJournalled op
    → Posted user token op d d'
    → IsAudited d
    → IsAudited d'
Posted-IsAudited user token op {d} {d'} j p audited u t = (
  tracks avail_delta user token u t op p.avail op.delta_avail _ _ d.exchange.entries
      d'.exchange.entries (λ eu et. let r = rw (eu, et) at p.read_avail in cc ((audited u t).0))
      (audited u t).0 p.avail_covered j.avail_matches
      (rw p.written (available_of-upsert user token _ _ p.at u t d.exchange.accounts))
      (rw p.written
        (journal-entry_of avail_delta user token u t op j.size _ _ p.at _ _ j.amount_pos)),
  tracks frozen_delta user token u t op p.frozen op.delta_frozen _ _ d.exchange.entries
      d'.exchange.entries (λ eu et. let r = rw (eu, et) at p.read_frozen in cc ((audited u t).1))
      (audited u t).1 p.frozen_covered j.frozen_matches
      (rw p.written (frozen_of-upsert user token _ _ p.at u t d.exchange.accounts))
      (rw p.written
        (journal-entry_of frozen_delta user token u t op j.size _ _ p.at _ _ j.amount_pos)),
)

-- An amount that parses is posted with the deltas of its entry type, so the books stay audited.
pub apply_ledger-IsAudited :
    (user token : Text) (op : LedgerOp) (d : Db)
    → IsJournalled op
    → IsAudited d
    → From d (apply_ledger user token op) (λ _ d'. IsAudited d')
apply_ledger-IsAudited user token op d j audited =
    From-weaken (apply_ledger-Posted user token op d)
      (λ _ d' p. Posted-IsAudited user (norm_token token) op j p audited)

-- Each of the seven operations that the store posts.
module _ (id : ℕ) (s : Text) (v : ℤ) (read : parse_wei s ≡ ok v) where
  pub credit_op-IsJournalled : IsJournalled (credit_op id v)
  unfolding credit_op avail_delta frozen_delta wei_zero
  credit_op-IsJournalled =
      let (n, e) = parse_wei-pos s v read in
      record { size = n; amount_pos = e; avail_matches = refl; frozen_matches = refl }

  pub reverse_op-IsJournalled : IsJournalled (reverse_op id v)
  unfolding reverse_op avail_delta frozen_delta wei_zero
  reverse_op-IsJournalled =
      let (n, e) = parse_wei-pos s v read in
      record { size = n; amount_pos = e; avail_matches = refl; frozen_matches = refl }

  pub freeze_op-IsJournalled : IsJournalled (freeze_op id v)
  unfolding freeze_op avail_delta frozen_delta wei_zero
  freeze_op-IsJournalled =
      let (n, e) = parse_wei-pos s v read in
      record { size = n; amount_pos = e; avail_matches = refl; frozen_matches = refl }

  pub unfreeze_op-IsJournalled : IsJournalled (unfreeze_op id v)
  unfolding unfreeze_op avail_delta frozen_delta wei_zero
  unfreeze_op-IsJournalled =
      let (n, e) = parse_wei-pos s v read in
      record { size = n; amount_pos = e; avail_matches = refl; frozen_matches = refl }

  pub debit_op-IsJournalled : IsJournalled (debit_op id v)
  unfolding debit_op avail_delta frozen_delta wei_zero
  debit_op-IsJournalled =
      let (n, e) = parse_wei-pos s v read in
      record { size = n; amount_pos = e; avail_matches = refl; frozen_matches = refl }

  pub payment_debit_op-IsJournalled : IsJournalled (payment_debit_op id v)
  unfolding payment_debit_op avail_delta frozen_delta wei_zero
  payment_debit_op-IsJournalled =
      let (n, e) = parse_wei-pos s v read in
      record { size = n; amount_pos = e; avail_matches = refl; frozen_matches = refl }

  pub payment_credit_op-IsJournalled : IsJournalled (payment_credit_op id v)
  unfolding payment_credit_op avail_delta frozen_delta wei_zero
  payment_credit_op-IsJournalled =
      let (n, e) = parse_wei-pos s v read in
      record { size = n; amount_pos = e; avail_matches = refl; frozen_matches = refl }

pub post_amount-IsAudited :
    (user token amount : Text) (op : ℤ → LedgerOp) (d : Db)
    → ((v : ℤ) → parse_wei amount ≡ ok v → IsJournalled (op v))
    → IsAudited d
    → From d (post_amount user token amount op) (λ _ d'. IsAudited d')
post_amount-IsAudited user token amount op d j audited =
    From-lift-then _ λ v read. apply_ledger-IsAudited user token (op v) d (j v read) audited

-- Books without an entry and without an account are audited.
pub empty-IsAudited : (d : Db) → d.exchange.accounts ≡ [] → d.exchange.entries ≡ [] → IsAudited d
unfolding journal parse_wei find_account
empty-IsAudited d ea ee user token = rw (ea, ee) (refl, refl)
