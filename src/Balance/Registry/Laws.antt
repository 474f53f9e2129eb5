-- ===== src/Balance/Registry/Laws.antt =====
-- The two maps of the registry agree, and an update is seen by every later look-up.
use gin_demo.Prelude.{◌≡◌, refl, false, none, some, List, [], ◌∷◌, is_some, arith, if◌then◌else◌}
use gin_demo.Prelude.Text.{Text, text_eq, text_eq_iff, to_lower, is_empty}
use gin_demo.Balance.Registry.{
  CustodialWallet, Registry, has_key, lookup, delete_key, delete_wallet, remove, upsert, get, put,
  put_all, reload, new_registry,
}

has_key-delete_key :
    (k j : Text) (xs : List Text)
    → has_key j (delete_key k xs) ≡ (if text_eq k j then false else has_key j xs)
unfolding has_key delete_key
has_key-delete_key k j [] = ground arith
has_key-delete_key k j (x ∷ xs) =
    ground (arith, text_eq_iff x k, text_eq_iff x j, text_eq_iff k j, has_key-delete_key k j xs)

lookup-delete_wallet :
    (k j : Text) (m : List (Text × CustodialWallet))
    → lookup j (delete_wallet k m) ≡ (if text_eq k j then none else lookup j m)
unfolding lookup delete_wallet
lookup-delete_wallet k j [] = ground arith
lookup-delete_wallet k j ((x, w) ∷ m) =
    ground (arith, text_eq_iff x k, text_eq_iff x j, text_eq_iff k j, lookup-delete_wallet k j m)

-- An address is registered exactly when its wallet is found.
abbrev pub IsConsistent : Registry → Type 0
IsConsistent r = (key : Text) → has_key key r.set ≡ is_some (lookup key r.wallets)

-- `Upsert` keeps `set` and `wallets` consistent, whether the wallet is enabled or not.
pub upsert-IsConsistent :
    (w : CustodialWallet) (r : Registry) → IsConsistent r → IsConsistent (upsert w r)
unfolding upsert has_key lookup
upsert-IsConsistent w r h key = ground (
  arith,
  h key,
  has_key-delete_key (to_lower w.address) key r.set,
  lookup-delete_wallet (to_lower w.address) key r.wallets,
)

-- `Remove` keeps `set` and `wallets` consistent.
pub remove-IsConsistent :
    (address : Text) (r : Registry) → IsConsistent r → IsConsistent (remove address r)
unfolding remove
remove-IsConsistent address r h key = ground (
  arith,
  h key,
  has_key-delete_key (to_lower address) key r.set,
  lookup-delete_wallet (to_lower address) key r.wallets,
)

-- After `Upsert` of `w`, an address that equals the wallet's up to case is found as `w` if the
-- wallet is enabled and not at all if it is not; every other address is found as before.
pub get-upsert :
    (w : CustodialWallet) (r : Registry) (address : Text)
    → is_empty address ≡ false
    → get address (upsert w r) ≡ (
        if text_eq (to_lower w.address) (to_lower address)
        then (if w.enabled then some w else none)
        else get address r)
unfolding get upsert lookup
get-upsert w r address h = ground (
  arith,
  text_eq_iff (to_lower w.address) (to_lower address),
  lookup-delete_wallet (to_lower w.address) (to_lower address) r.wallets,
)

put-IsConsistent : (w : CustodialWallet) (r : Registry) → IsConsistent r → IsConsistent (put w r)
unfolding has_key lookup
put-IsConsistent w r h key = ground (
  arith,
  h key,
  has_key-delete_key (to_lower w.address) key r.set,
  lookup-delete_wallet (to_lower w.address) key r.wallets,
)

put_all-IsConsistent :
    (r : Registry) (rows : List CustodialWallet) → IsConsistent r → IsConsistent (put_all r rows)
unfolding put_all
put_all-IsConsistent r [] h = h
put_all-IsConsistent r (w ∷ rows) h = put_all-IsConsistent (put w r) rows (put-IsConsistent w r h)

-- `Reload` makes `set` and `wallets` consistent, whatever rows the store has returned, also rows with
-- the same address.
pub reload-IsConsistent : (rows : List CustodialWallet) → IsConsistent (reload rows)
unfolding reload new_registry has_key lookup
reload-IsConsistent rows = put_all-IsConsistent new_registry rows (λ key. refl)
