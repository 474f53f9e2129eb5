-- ===== src/Balance/Registry.antt =====
-- internal/balance/registry.go: the in-memory cache of custodial addresses, with the wallet type of
-- internal/balance/types.go. A Go map is an association list; every method runs under the lock, so
-- each is one step.
pub mod Laws
use gin_demo.Prelude.{ℕ, Bool, true, false, Option, none, some, List, [], ◌∷◌, if◌then◌else◌}
use gin_demo.Prelude.Text.{Text, text_eq, to_lower, is_empty}

pub data WalletType : Type 0 where
  hot deposit treasury : WalletType

pub record CustodialWallet : Type 0 where
  pub address : Text
  pub user_id : Text
  pub label : Text
  pub wallet_type : WalletType
  pub enabled : Bool
  pub created_at : ℕ
  pub updated_at : ℕ

pub record Registry : Type 0 where
  pub set : List Text
  pub wallets : List (Text × CustodialWallet)

unfoldable pub has_key : Text → List Text → Bool
has_key k [] = false
has_key k (x ∷ xs) = if text_eq x k then true else has_key k xs

unfoldable pub lookup : Text → List (Text × CustodialWallet) → Option CustodialWallet
lookup k [] = none
lookup k ((x, w) ∷ m) = if text_eq x k then some w else lookup k m

unfoldable pub delete_key : Text → List Text → List Text
delete_key k [] = []
delete_key k (x ∷ xs) = if text_eq x k then delete_key k xs else x ∷ delete_key k xs

unfoldable pub delete_wallet : Text → List (Text × CustodialWallet) → List (Text × CustodialWallet)
delete_wallet k [] = []
delete_wallet k ((x, w) ∷ m) = if text_eq x k then delete_wallet k m else (x, w) ∷ delete_wallet k m

unfoldable pub new_registry : Registry
new_registry = record { set = []; wallets = [] }

abbrev pub put : CustodialWallet → Registry → Registry
put w r =
    let key = to_lower w.address in
    record { set = key ∷ delete_key key r.set; wallets = (key, w) ∷ delete_wallet key r.wallets }

put_all : Registry → List CustodialWallet → Registry
put_all r [] = r
put_all r (w ∷ rows) = put_all (put w r) rows

-- `Reload`, given the enabled rows that the store returned
unfoldable pub reload : List CustodialWallet → Registry
unfolding put_all new_registry delete_key delete_wallet
reload rows = put_all new_registry rows

unfoldable pub remove : Text → Registry → Registry
unfolding delete_key delete_wallet
remove address r =
    let key = to_lower address in
    record { set = delete_key key r.set; wallets = delete_wallet key r.wallets }

unfoldable pub upsert : CustodialWallet → Registry → Registry
unfolding delete_key delete_wallet
upsert w r =
    let key = to_lower w.address in
    if w.enabled
    then put w r
    else record { set = delete_key key r.set; wallets = delete_wallet key r.wallets }

-- `Add`, given the wallet that the store answers: none on an error, or without a store
unfoldable pub add : Option CustodialWallet → Registry → Registry
unfolding upsert
add none r = r
add (some w) r = upsert w r

unfoldable pub is_registered : Text → Registry → Bool
unfolding has_key is_empty
is_registered address r = if is_empty address then false else has_key (to_lower address) r.set

unfoldable pub get : Text → Registry → Option CustodialWallet
unfolding lookup is_empty
get address r = if is_empty address then none else lookup (to_lower address) r.wallets
