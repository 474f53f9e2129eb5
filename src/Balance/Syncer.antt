-- ===== src/Balance/Syncer.antt =====
-- internal/balance/syncer.go: the balances of the parties of a transaction, and of the registered
-- wallets, are read from the node and stored. Nil checks of the syncer and its store are left out.
pub mod Parties
use gin_demo.Prelude.{
  ℕ, Bool, true, false, not, ◌&&◌, ◌||◌, Option, none, some, List, [], ◌∷◌, if◌then◌else◌, length,
}
use gin_demo.Prelude.Int.{ℤ}
use gin_demo.Prelude.Text.{Text, trim_space, is_empty}
use gin_demo.Sql.{
  Error, no_rows, Result, ok, err, wallet_not_found, wallet_disabled, pure, fail, lift, ◌>>=◌, ◌>>◌,
  guard, choose, ignore, optional,
}
use gin_demo.Schema.{Action}
use gin_demo.Exchange.Wei.{big_string}
use gin_demo.Balance.Registry.{CustodialWallet, Registry, is_registered}
use gin_demo.Balance.Types.{TxParties, native_token}
use gin_demo.Balance.Store.{upsert, get_wallet, list_enabled_addresses}

-- What the syncer is given: `common.IsHexAddress`, the `Hex()` of `common.HexToAddress`, the node's
-- balances, and its settings. A registry that is nil is none.
pub record Syncer : Type 0 where
  pub is_hex_address : Text → Bool
  pub hex : Text → Text
  pub balance_at : Text → Result ℤ
  pub erc20_balance_of : Text → Text → Result ℤ
  pub custodial_only : Bool
  pub watch_tokens : List Text
  pub registry : Option Registry

unfoldable pub refresh_native : Syncer → Text → Text → ℕ → Action (Unit {0})
unfolding upsert
refresh_native s address source_tx block_num =
    let holder = trim_space address in
    choose (s.is_hex_address holder)
      (lift (s.balance_at holder) >>= λ bal.
        upsert holder native_token (big_string bal) source_tx block_num)
      (pure tt)

-- `token` is the text of a `common.Address`
unfoldable pub refresh_erc20 : Syncer → Text → Text → Text → ℕ → Action (Unit {0})
unfolding upsert
refresh_erc20 s token address source_tx block_num =
    let holder = trim_space address in
    choose (s.is_hex_address holder)
      (lift (s.erc20_balance_of token (s.hex holder)) >>= λ bal.
        upsert holder token (big_string bal) source_tx block_num)
      (pure tt)

abbrev registered_or_empty : Registry → Text → Text
registered_or_empty r party =
    if not (is_empty party) && not (is_registered party r) then [] else party

abbrev pub filter_party : Bool → Option Registry → Text → Text
filter_party custodial_only none party = party
filter_party custodial_only (some r) party =
    if custodial_only then registered_or_empty r party else party

-- `filterParties`
abbrev pub filter_parties : Syncer → Text → Text → Text × Text
filter_parties s from to =
    (filter_party s.custodial_only s.registry from, filter_party s.custodial_only s.registry to)

abbrev pub refresh_party : Syncer → TxParties → Text → Action (Unit {0})
refresh_party s p party = choose (is_empty party) (pure tt) (
    ignore (
      choose (p.is_erc20 && not (is_empty p.token_addr))
        (refresh_erc20 s (s.hex p.token_addr) party p.tx_hash p.block_number)
        (refresh_native s party p.tx_hash p.block_number)))

unfoldable pub refresh_for_tx : Syncer → TxParties → Action (Unit {0})
unfolding refresh_native refresh_erc20 is_empty is_registered
refresh_for_tx s p = do
  let (from, to) = filter_parties s p.from p.to
  refresh_party s p from
  refresh_party s p to

abbrev pub refresh_tokens : Syncer → Text → List Text → Action (Unit {0})
refresh_tokens s address [] = pure tt
refresh_tokens s address (token ∷ rest) =
    ignore (refresh_erc20 s (s.hex token) address [] 0) >> refresh_tokens s address rest

abbrev or_unknown : Option CustodialWallet → Action CustodialWallet
or_unknown none = fail wallet_not_found
or_unknown (some w) = pure w

unfoldable pub refresh_wallet : Syncer → Text → Action (Unit {0})
unfolding refresh_native refresh_erc20 get_wallet
refresh_wallet s address = do
  guard (s.is_hex_address (trim_space address)) wallet_not_found
  found ← optional (get_wallet (trim_space address))
  w ← or_unknown found
  guard w.enabled wallet_disabled
  refresh_native s w.address [] 0
  refresh_tokens s w.address s.watch_tokens

abbrev refresh_each : Syncer → List Text → Action (Unit {0})
refresh_each s [] = pure tt
refresh_each s (a ∷ rest) = ignore (refresh_wallet s a) >> refresh_each s rest

-- how many addresses there were, refreshed or not
unfoldable pub refresh_all_registered : Syncer → Action ℕ
unfolding refresh_wallet list_enabled_addresses
refresh_all_registered s = do all ← list_enabled_addresses 0; refresh_each s all; pure (length all)
