-- ===== src/Exchange/Ledger/Accounts.antt =====
-- What `upsert_account` does to the balances that are read back.
use gin_demo.Prelude.{ℕ, ◌≡◌, Bool, ◌&&◌, List, [], ◌∷◌, if◌then◌else◌, arith}
use gin_demo.Prelude.Text.{Text, text_eq, text_eq_iff}
use gin_demo.Exchange.Types.{AccountBalance}
use gin_demo.Exchange.Ledger.{find_account, upsert_account, available_of, frozen_of}

-- `(u, t)` names the account of `(user, token)`.
abbrev pub same_account : Text → Text → Text → Text → Bool
same_account user token u t = text_eq user u && text_eq token t

module _ (user token avail frozen : Text) (at : ℕ) (u t : Text) where
  pub available_of-upsert :
      (accounts : List AccountBalance)
      → available_of (find_account u t (upsert_account user token avail frozen at accounts))
        ≡ (if same_account user token u t then avail else available_of (find_account u t accounts))
  unfolding find_account upsert_account
  available_of-upsert [] = ground arith
  available_of-upsert (a ∷ rest) = ground (
    arith,
    text_eq_iff a.user_id user,
    text_eq_iff a.token_address token,
    text_eq_iff a.user_id u,
    text_eq_iff a.token_address t,
    text_eq_iff user u,
    text_eq_iff token t,
    available_of-upsert rest,
  )

  pub frozen_of-upsert :
      (accounts : List AccountBalance)
      → frozen_of (find_account u t (upsert_account user token avail frozen at accounts))
        ≡ (if same_account user token u t then frozen else frozen_of (find_account u t accounts))
  unfolding find_account upsert_account
  frozen_of-upsert [] = ground arith
  frozen_of-upsert (a ∷ rest) = ground (
    arith,
    text_eq_iff a.user_id user,
    text_eq_iff a.token_address token,
    text_eq_iff a.user_id u,
    text_eq_iff a.token_address t,
    text_eq_iff user u,
    text_eq_iff token t,
    frozen_of-upsert rest,
  )
