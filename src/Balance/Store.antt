-- ===== src/Balance/Store.antt =====
-- internal/balance/store.go: the balances that the node has reported, and the custodial wallets.
pub mod Owner
use gin_demo.Prelude.{
  ℕ, Bool, true, false, not, ◌&&◌, ◌||◌, Option, none, some, List, [], ◌∷◌, ltb, ◌==◌,
  if◌then◌else◌, find_first, select, take, update_where, count_where, any, sort_by,
}
use gin_demo.Prelude.Text.{Text, text_eq, text_leb, to_lower, trim_space, is_empty, equal_fold}
use gin_demo.Sql.{
  Result, ok, err, duplicate, wallet_not_found, deposit_requires_user_id, wallet_owner_conflict,
  wallet_type_immutable, pure, ◌>>=◌, ◌>>◌, now, guard, exec, query, optional, first_row,
}
use gin_demo.Schema.{Db, Action}
use gin_demo.Balance.Registry.{CustodialWallet, WalletType}
use gin_demo.Balance.Types.{Row, RegisterWalletParams, RegisterWalletResult}

-- `normToken`
abbrev pub norm_token : Text → Text
norm_token token = to_lower (trim_space token)

abbrev pub has_address : Text → Row → Bool
has_address address r = text_eq r.address address

abbrev pub has_token : Text → Text → Row → Bool
has_token address token r = has_address address r && text_eq r.token_address token

-- `ON DUPLICATE KEY UPDATE` of the primary key: every other column is overwritten
abbrev pub upsert_row : Row → List Row → List Row
upsert_row new rows =
    if any (has_token new.address new.token_address) rows
    then update_where (has_token new.address new.token_address) (λ old. new) rows
    else new ∷ rows

abbrev pub set_row : Row → Db → Db
set_row new db = record db { balance = record db.balance { rows = upsert_row new db.balance.rows } }

abbrev pub row_of : Text → Text → Text → Text → ℕ → ℕ → Row
row_of address token balance_wei source_tx block_num at = record {
  address = to_lower address;
  token_address = norm_token token;
  balance_wei = balance_wei;
  block_number = block_num;
  source_tx_hash = to_lower source_tx;
  updated_at = at;
}

unfoldable pub upsert : Text → Text → Text → Text → ℕ → Action (Unit {0})
upsert address token balance_wei source_tx block_num = do
  at ← now
  exec (λ db. ok (tt, set_row (row_of address token balance_wei source_tx block_num at) db))

unfoldable pub get : Text → Text → Action Row
get address token =
    query (λ db.
      first_row (find_first (has_token (to_lower address) (norm_token token)) db.balance.rows))

unfoldable pub list_by_address : Text → Action (List Row)
list_by_address address = query (λ db. ok (
    sort_by (λ a b. text_leb a.token_address b.token_address)
      (select (has_address (to_lower address)) db.balance.rows)))

abbrev pub at_address : Text → CustodialWallet → Bool
at_address address w = text_eq w.address address

abbrev pub set_wallets : List CustodialWallet → Db → Db
set_wallets ws db = record db { balance = record db.balance { wallets = ws } }

abbrev pub find_wallet : Text → Db → Result CustodialWallet
find_wallet address db = first_row (find_first (at_address address) db.balance.wallets)

unfoldable pub get_wallet : Text → Action CustodialWallet
get_wallet address = query (find_wallet (to_lower address))

abbrev or_deposit : Option WalletType → WalletType
or_deposit none = WalletType.deposit
or_deposit (some t) = t

abbrev is_deposit : WalletType → Bool
is_deposit WalletType.deposit = true
is_deposit _ = false

abbrev type_tag : WalletType → ℕ
type_tag WalletType.hot = 0
type_tag WalletType.deposit = 1
type_tag WalletType.treasury = 2

abbrev pub same_type : WalletType → WalletType → Bool
same_type s t = type_tag s == type_tag t

-- `INSERT INTO custodial_wallets` under the primary key (chain_id, address)
abbrev pub insert_wallet : CustodialWallet → Db → Result (Unit {0} × Db)
insert_wallet w db =
    if any (at_address w.address) db.balance.wallets
    then err duplicate
    else ok (tt, set_wallets (w ∷ db.balance.wallets) db)

-- the branch of `RegisterWallet` for an address without a row
unfoldable pub register_new : Text → WalletType → Text → Text → Action RegisterWalletResult
unfolding get_wallet
register_new address kind user label = do
  at ← now
  exec (
      insert_wallet record {
        address = address;
        user_id = user;
        label = label;
        wallet_type = kind;
        enabled = true;
        created_at = at;
        updated_at = at;
      })
  w ← get_wallet address
  pure (record { wallet = w; created = true })

-- a text of the request, or the stored one if the request leaves it out
abbrev pub or_kept : Text → Text → Text
or_kept given stored = if is_empty given then stored else given

abbrev pub update_wallet : Text → Text → ℕ → CustodialWallet → CustodialWallet
update_wallet user label at w = record w {
  user_id = user;
  label = label;
  enabled = true;
  updated_at = at;
}

abbrev pub same_owner : CustodialWallet → Text → Bool
same_owner w user =
    not (not (is_empty w.user_id) && not (is_empty user) && not (equal_fold w.user_id user))

-- the branch of `RegisterWallet` for the row `w` that is stored
unfoldable pub register_existing :
    Text → WalletType → Text → Text → CustodialWallet → Action RegisterWalletResult
unfolding get_wallet is_empty
register_existing address kind user label w = do
  guard (same_owner w user) wallet_owner_conflict
  guard (same_type kind w.wallet_type) wallet_type_immutable
  guard (not (is_deposit w.wallet_type && is_empty w.user_id && is_empty user))
      deposit_requires_user_id
  at ← now
  exec (λ db. ok (
    tt,
    set_wallets
        (update_where (at_address address)
          (update_wallet (or_kept user w.user_id) (or_kept label w.label) at) db.balance.wallets)
        db,
  ))
  stored ← get_wallet address
  pure (record { wallet = stored; created = false })

abbrev pub register_at :
    Text → WalletType → Text → Text → Option CustodialWallet → Action RegisterWalletResult
register_at address kind user label none = register_new address kind user label
register_at address kind user label (some w) = register_existing address kind user label w

unfoldable pub register_wallet : RegisterWalletParams → Action RegisterWalletResult
unfolding get_wallet register_new register_existing is_empty
register_wallet p = do
  let address = to_lower (trim_space p.address)
  let kind = or_deposit p.wallet_type
  let user = trim_space p.user_id
  guard (not (is_deposit kind && is_empty user)) deposit_requires_user_id
  existing ← optional (get_wallet address)
  register_at address kind user (trim_space p.label) existing

abbrev given_and_not : Text → Text → Bool
given_and_not wanted stored = not (is_empty wanted) && not (text_eq stored wanted)

abbrev type_of : Option WalletType → CustodialWallet → Bool
type_of none w = true
type_of (some t) w = same_type w.wallet_type t

-- the `WHERE` of `ListWallets`: an empty filter is left out
abbrev listed : Text → Option WalletType → Bool → CustodialWallet → Bool
listed user kind enabled_only w =
    not (given_and_not user w.user_id) && type_of kind w && (not enabled_only || w.enabled)

-- `LIMIT` if one is given, at most `max`
abbrev limited : {A : Type 0} → ℕ → ℕ → List A → List A
limited max limit rows =
    if limit == 0 then rows else take (if ltb max limit then max else limit) rows

unfoldable pub list_wallets : Text → Option WalletType → Bool → ℕ → Action (List CustodialWallet)
unfolding is_empty
list_wallets user kind enabled_only limit = query (λ db. ok (
    limited 500 limit (
      sort_by (λ a b. not (ltb a.created_at b.created_at))
        (select (listed user kind enabled_only) db.balance.wallets))))

abbrev addresses : List CustodialWallet → List Text
addresses [] = []
addresses (w ∷ rows) = w.address ∷ addresses rows

-- the limit of `ListEnabledAddresses` has no maximum
unfoldable pub list_enabled_addresses : ℕ → Action (List Text)
list_enabled_addresses limit = query (λ db. ok (
    limited limit limit (
      addresses (
        sort_by (λ a b. text_leb a.address b.address)
          (select (λ w. w.enabled) db.balance.wallets)))))

abbrev pub enable_wallet : Bool → ℕ → CustodialWallet → CustodialWallet
enable_wallet on at w = record w { enabled = on; updated_at = at }

unfoldable pub set_wallet_enabled : Text → Bool → Action (Unit {0})
set_wallet_enabled address on = do
  at ← now
  n ← exec (λ db. ok (
    count_where (at_address (to_lower address)) db.balance.wallets,
    set_wallets
        (update_where (at_address (to_lower address)) (enable_wallet on at) db.balance.wallets) db,
  ))
  guard (not (n == 0)) wallet_not_found
