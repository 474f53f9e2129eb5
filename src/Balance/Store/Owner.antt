-- ===== src/Balance/Store/Owner.antt =====
-- The type and the owner of a registered wallet under the changes of its table.
use gin_demo.Prelude.{
  ◌≡◌, refl, sym, ◌∙◌, ap, Bool, true, false, Bool-cases, inl, inr, Option, none, some, List, [],
  ◌∷◌, any, find_first, update_where, arith, any-find_first,
}
use gin_demo.Prelude.Text.{
  Text, text_eq, text_eq_iff, to_lower, trim_space, is_empty, is_empty-to_lower, to_lower_idem,
}
use gin_demo.Sql.{ok, World, pure, ◌>>◌, ignore, exec, first_row}
use gin_demo.Sql.Keeps.{
  Keeps, Keeps-bind, Keeps-now, Keeps-exec, Keeps-update, Keeps-query, Keeps-pure, Keeps-guard,
  Keeps-ignore,
}
use gin_demo.Sql.Yields.{Keeps-answer, Keeps-guard-then, Found, Yields-optional}
use gin_demo.Schema.{Db, Action}
use gin_demo.Balance.Registry.{CustodialWallet, WalletType}
use gin_demo.Balance.Types.{RegisterWalletParams}
use gin_demo.Balance.Store.{
  at_address, set_wallets, find_wallet, get_wallet, insert_wallet, or_kept, same_owner,
  register_new, register_existing, register_at, register_wallet, set_wallet_enabled,
}

-- the first row of the address is of the type `kind` and owned by `user`, up to case
abbrev pub OwnedIn : Text → WalletType → Text → List CustodialWallet → Type 0
OwnedIn a kind user rows =
    (w : CustodialWallet) × (find_first (at_address a) rows ≡ some w)
    × (w.wallet_type ≡ kind)
    × (to_lower w.user_id ≡ to_lower user)

abbrev pub Owned : Text → WalletType → Text → Db → Type 0
Owned a kind user d = OwnedIn a kind user d.balance.wallets

-- a change of a row that leaves the key, the type and the owner
abbrev KeepsRow : Text → Text → Text → (CustodialWallet → CustodialWallet) → Type 0
KeepsRow a b user f =
    (w : CustodialWallet)
    → ((f w).address ≡ w.address)
      × ((f w).wallet_type ≡ w.wallet_type)
      × (a ≡ b → to_lower w.user_id ≡ to_lower user → to_lower (f w).user_id ≡ to_lower user)

module _ (a : Text) (kind : WalletType) (user : Text) where
  kept_in :
      (b : Text) (f : CustodialWallet → CustodialWallet) (rows : List CustodialWallet)
      → KeepsRow a b user f
      → OwnedIn a kind user rows
      → OwnedIn a kind user (update_where (at_address b) f rows)
  kept_in b f [] k (w, found, typed, owned) = cc
  kept_in b f (x ∷ rows) k (w, found, typed, owned) =
      let (address, type, owner) = k x in
      elim (Bool-cases (text_eq x.address b)) [
        | inl hit ↦ elim (Bool-cases (text_eq x.address a)) [
          | inl here ↦
              let first : x ≡ w = cc (rw here at found) in
              let at_a = (text_eq_iff x.address a).0 here in
              let at_b = (text_eq_iff x.address b).0 hit in
              let o = owner (sym at_a ∙ at_b) (rw first owned) in
              let there = ap (λ t. text_eq t a) address ∙ here in
              rw (hit, there) (f x, refl, type ∙ rw first typed, o)
          | inr other ↦
              let there = ap (λ t. text_eq t a) address ∙ other in
              rw (hit, there) (kept_in b f rows k (w, rw other at found, typed, owned))
        ]
        | inr miss ↦ elim (Bool-cases (text_eq x.address a)) [
          | inl here ↦ rw (miss, here) (w, rw here at found, typed, owned)
          | inr other ↦ rw (miss, other) (kept_in b f rows k (w, rw other at found, typed, owned))
        ]
      ]

  inserted :
      (new : CustodialWallet) (rows : List CustodialWallet)
      → any (at_address new.address) rows ≡ false
      → OwnedIn a kind user rows
      → OwnedIn a kind user (new ∷ rows)
  inserted new rows free (w, found, typed, owned) = elim (Bool-cases (text_eq new.address a)) [
    | inl here ↦
        let same = (text_eq_iff new.address a).0 here in
        let absent = sym (ap (λ t. any (at_address t) rows) same) ∙ free in
        let present = any-find_first (at_address a) rows found in cc
    | inr other ↦ rw other (w, found, typed, owned)
  ]

  insert-Owned : (new : CustodialWallet) → Keeps (Owned a kind user) (exec (insert_wallet new))
  insert-Owned new = Keeps-exec _ λ d h x d' e.
      elim (Bool-cases (any (at_address new.address) d.balance.wallets)) [
        | inl taken ↦ cc (rw taken at e)
        | inr free ↦
            let written : d' ≡ set_wallets (new ∷ d.balance.wallets) d = cc (rw free at e) in
            rw written (inserted new d.balance.wallets free h)
      ]

  new-Owned :
      (b : Text) (t : WalletType) (u l : Text) → Keeps (Owned a kind user) (register_new b t u l)
  unfolding register_new get_wallet
  new-Owned b t u l =
      Keeps-bind Keeps-now
        λ at. Keeps-bind (insert-Owned _) λ _. Keeps-bind (Keeps-query _) λ w. Keeps-pure _

  -- what is known of the row that is stored under `b`
  abbrev OwnedRow : Text → CustodialWallet → Type 0
  OwnedRow b w = a ≡ b → to_lower w.user_id ≡ to_lower user

  found-OwnedRow :
      (b : Text) (d : Db) (w : CustodialWallet)
      → Owned a kind user d
      → find_wallet b d ≡ ok w
      → OwnedRow b w
  found-OwnedRow b d w (v, found, typed, owned) e same =
      let first : find_wallet b d ≡ ok v = rw (sym same) (ap (λ o. first_row o) found) in
      let here : v ≡ w = cc in rw⁻¹ here owned

  -- The owner that a registration writes is the stored one up to case.
  kept_owner :
      (b u : Text) (w : CustodialWallet)
      → is_empty user ≡ false
      → OwnedRow b w
      → same_owner w u ≡ true
      → a ≡ b
      → to_lower (or_kept u w.user_id) ≡ to_lower user
  kept_owner b u w some_user known allowed same =
      let o = known same in
      elim (Bool-cases (is_empty u)) [
        | inl left_out ↦ rw left_out o
        | inr given ↦
            let held : is_empty w.user_id ≡ false =
              sym (is_empty-to_lower w.user_id)
              ∙ ap is_empty o
              ∙ is_empty-to_lower user
              ∙ some_user in
            let fold = rw (given, held) at allowed in
            rw given (sym ((text_eq_iff _ _).0 (ground arith)) ∙ o)
      ]

  existing-Owned :
      (b : Text) (t : WalletType) (u l : Text) (w : CustodialWallet)
      → is_empty user ≡ false
      → OwnedRow b w
      → Keeps (Owned a kind user) (register_existing b t u l w)
  unfolding register_existing get_wallet
  existing-Owned b t u l w some_user known = Keeps-guard-then _ _ _ λ allowed.
      Keeps-bind (Keeps-guard _ _) λ _. Keeps-bind (Keeps-guard _ _) λ _. Keeps-bind Keeps-now λ at.
        Keeps-bind
          (Keeps-update _ (λ d. refl)
            λ d h.
              kept_in b _ d.balance.wallets
                (λ v. (refl, refl, λ same o. kept_owner b u w some_user known allowed same)) h)
          λ _. Keeps-bind (Keeps-query _) λ v. Keeps-pure _

  at-Owned :
      (b : Text) (t : WalletType) (u l : Text) (found : Option CustodialWallet)
      → is_empty user ≡ false
      → Found (OwnedRow b) found
      → Keeps (Owned a kind user) (register_at b t u l found)
  at-Owned b t u l none some_user known = new-Owned b t u l
  at-Owned b t u l (some w) some_user known = existing-Owned b t u l w some_user known

  register-Owned :
      (p : RegisterWalletParams)
      → is_empty user ≡ false
      → Keeps (Owned a kind user) (register_wallet p)
  unfolding register_wallet get_wallet
  register-Owned p some_user = Keeps-bind (Keeps-guard _ _) λ _.
      Keeps-answer
        (Yields-optional _ λ d h w e.
          found-OwnedRow (to_lower (trim_space p.address)) d w h
            (rw (to_lower_idem (trim_space p.address)) at e))
        λ found known. at-Owned _ _ _ _ found some_user known

  enable-Owned : (b : Text) (on : Bool) → Keeps (Owned a kind user) (set_wallet_enabled b on)
  unfolding set_wallet_enabled
  enable-Owned b on = Keeps-bind Keeps-now λ at.
      Keeps-bind
        (Keeps-update _ (λ d. refl)
          λ d h. kept_in _ _ d.balance.wallets (λ v. (refl, refl, λ same o. o)) h)
        λ n. Keeps-guard _ _

-- A change of the table of wallets.
pub data WalletStep : Type 0 where
  register : RegisterWalletParams → WalletStep
  set_enabled : Text → Bool → WalletStep

unfoldable pub run_wallet_step : WalletStep → Action (Unit {0})
unfolding register_wallet set_wallet_enabled
run_wallet_step (WalletStep.register p) = ignore (register_wallet p)
run_wallet_step (WalletStep.set_enabled b on) = ignore (set_wallet_enabled b on)

-- The changes one after the other, an error of one not stopping the next.
unfoldable pub run_wallet_steps : List WalletStep → Action (Unit {0})
unfolding run_wallet_step
run_wallet_steps [] = pure tt
run_wallet_steps (x ∷ rest) = run_wallet_step x >> run_wallet_steps rest

module _ (a : Text) (kind : WalletType) (user : Text) (some_user : is_empty user ≡ false) where
  step-Owned : (x : WalletStep) → Keeps (Owned a kind user) (run_wallet_step x)
  unfolding run_wallet_step
  step-Owned (WalletStep.register p) = Keeps-ignore _ (register-Owned a kind user p some_user)
  step-Owned (WalletStep.set_enabled b on) = Keeps-ignore _ (enable-Owned a kind user b on)

  steps-Owned : (xs : List WalletStep) → Keeps (Owned a kind user) (run_wallet_steps xs)
  unfolding run_wallet_steps
  steps-Owned [] = Keeps-pure tt
  steps-Owned (x ∷ rest) = Keeps-bind (step-Owned x) λ _. steps-Owned rest

-- A wallet that is stored with an owner keeps its type, and its owner up to the case of the letters,
-- whatever registrations and enablings follow, of this or other addresses, in any order, and with any
-- of their statements failing.
pub run_wallet_steps-Owned :
    (a : Text) (kind : WalletType) (user : Text) (xs : List WalletStep) (w : World Db)
    → is_empty user ≡ false
    → Owned a kind user w.db
    → Owned a kind user (run_wallet_steps xs w).1.db
run_wallet_steps-Owned a kind user xs w some_user h = (steps-Owned a kind user some_user xs).at w h
