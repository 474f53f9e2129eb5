-- ===== src/Balance/Syncer/Parties.antt =====
-- Which balances the syncer writes.
use gin_demo.Prelude.{
  ℕ, ◌≡◌, refl, ◌∙◌, ap, true, false, not, ◌&&◌, Bool-cases, inl, inr, some, List, [], ◌∷◌, any,
  select, update_where, arith,
}
use gin_demo.Prelude.Text.{Text, text_eq, text_eq_iff, to_lower, trim_space, is_empty}
use gin_demo.Sql.{World}
use gin_demo.Sql.Keeps.{
  Keeps, Keeps-bind, Keeps-now, Keeps-update, Keeps-pure, Keeps-lift, Keeps-choose, Keeps-branch,
  Keeps-ignore,
}
use gin_demo.Schema.{Db}
use gin_demo.Balance.Registry.{Registry, is_registered}
use gin_demo.Balance.Types.{Row, TxParties}
use gin_demo.Balance.Store.{has_address, has_token, upsert_row, row_of, upsert}
use gin_demo.Balance.Syncer.{
  Syncer, refresh_native, refresh_erc20, filter_party, refresh_party, refresh_for_tx,
}

-- the stored balances of an address
abbrev pub balances_of : Text → Db → List Row
balances_of a d = select (has_address a) d.balance.rows

module _ (a : Text) where
  updated_beside :
      (new : Row) (rows : List Row)
      → text_eq new.address a ≡ false
      → select
          (has_address a)
          (update_where (has_token new.address new.token_address) (λ _. new) rows)
        ≡ select (has_address a) rows
  updated_beside new [] other = refl
  updated_beside new (x ∷ rows) other =
      let rest = updated_beside new rows other in
      elim (Bool-cases
        (text_eq x.address new.address && text_eq x.token_address new.token_address)) [
          | inl hit ↦
              let same = (text_eq_iff x.address new.address).0 (ground arith) in
              let there : text_eq x.address a ≡ false = ap (λ t. text_eq t a) same ∙ other in
              rw (hit, other, there) rest
          | inr miss ↦ rw (miss, rest) refl
        ]

  upserted_beside :
      (new : Row) (rows : List Row)
      → text_eq new.address a ≡ false
      → select (has_address a) (upsert_row new rows) ≡ select (has_address a) rows
  upserted_beside new rows other =
      elim (Bool-cases (any (has_token new.address new.token_address) rows)) [
        | inl stored ↦ rw stored (updated_beside new rows other)
        | inr fresh ↦ rw (fresh, other) refl
      ]

-- A party under another address than `a`.
abbrev pub IsOther : Text → Text → Type 0
IsOther a party = text_eq (to_lower (trim_space party)) a ≡ false

module _ (a : Text) (before : List Row) where
  -- the balances of `a` are those of `before`
  abbrev Beside : Db → Type 0
  Beside d = balances_of a d ≡ before

  upsert-Beside :
      (holder token bal source_tx : Text) (n : ℕ)
      → text_eq (to_lower holder) a ≡ false
      → Keeps Beside (upsert holder token bal source_tx n)
  unfolding upsert
  upsert-Beside holder token bal source_tx n other = Keeps-bind Keeps-now λ at.
      Keeps-update _ (λ d. refl)
        λ d h. upserted_beside a (row_of holder token bal source_tx n at) d.balance.rows other ∙ h

  native-Beside :
      (s : Syncer) (party source_tx : Text) (n : ℕ)
      → IsOther a party
      → Keeps Beside (refresh_native s party source_tx n)
  unfolding refresh_native
  native-Beside s party source_tx n other =
      Keeps-choose _ _ _ (Keeps-bind (Keeps-lift _) λ bal. upsert-Beside _ _ _ _ _ other)
        (Keeps-pure tt)

  erc20-Beside :
      (s : Syncer) (token party source_tx : Text) (n : ℕ)
      → IsOther a party
      → Keeps Beside (refresh_erc20 s token party source_tx n)
  unfolding refresh_erc20
  erc20-Beside s token party source_tx n other =
      Keeps-choose _ _ _ (Keeps-bind (Keeps-lift _) λ bal. upsert-Beside _ _ _ _ _ other)
        (Keeps-pure tt)

  party-Beside :
      (s : Syncer) (p : TxParties) (party : Text)
      → (is_empty party ≡ false → IsOther a party)
      → Keeps Beside (refresh_party s p party)
  party-Beside s p party other =
      Keeps-branch _ _ _ (λ empty. Keeps-pure tt)
        λ given. Keeps-ignore _ (
          Keeps-choose _ _ _ (erc20-Beside s _ party _ _ (other given))
            (native-Beside s party _ _ (other given)))

-- What the filter lets through is registered.
filtered :
    (a : Text) (r : Registry) (party : Text)
    → (is_registered party r ≡ true → IsOther a party)
    → is_empty (filter_party true (some r) party) ≡ false
    → IsOther a (filter_party true (some r) party)
unfolding is_empty
filtered a r party other given =
    elim (Bool-cases (not (is_empty party) && not (is_registered party r))) [
      | inl stranger ↦ cc (rw stranger at given)
      | inr known ↦
          let given' : is_empty party ≡ false = rw known at given in rw known (other (ground arith))
    ]

-- With only custodial wallets to be synced, refreshing the balances of a transaction leaves those of
-- every address that is not a registered party of it, whichever statements and calls of the node fail.
pub refresh_for_tx-Beside :
    (s : Syncer) (r : Registry) (p : TxParties) (a : Text) (w : World Db)
    → s.custodial_only ≡ true
    → s.registry ≡ some r
    → (is_registered p.from r ≡ true → IsOther a p.from)
    → (is_registered p.to r ≡ true → IsOther a p.to)
    → balances_of a (refresh_for_tx s p w).1.db ≡ balances_of a w.db
unfolding refresh_for_tx
refresh_for_tx-Beside s r p a w only some_registry from to =
    (Keeps-bind
        (party-Beside a (balances_of a w.db) s p _
          (rw (only, some_registry) (filtered a r p.from from)))
        λ _.
          party-Beside a (balances_of a w.db) s p _
            (rw (only, some_registry) (filtered a r p.to to))).at
      w refl
