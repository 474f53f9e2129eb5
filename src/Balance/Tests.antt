-- ===== src/Balance/Tests.antt =====
-- The theorems of the wallets at a hot wallet that is registered, looked up and synced.
use gin_demo.Prelude.{◌≡◌, refl, true, false, List, some, [], ◌∷◌}
use gin_demo.Prelude.Int.{pos}
use gin_demo.Prelude.Text.{Text, codes, text_eq, to_lower, trim_space, is_empty, lower_byte}
use gin_demo.Sql.{World, ok}
use gin_demo.Schema.{Db, empty_db}
use gin_demo.Balance.Registry.{
  CustodialWallet, WalletType, Registry, new_registry, has_key, lookup, is_registered,
}
use gin_demo.Balance.Registry.Laws.{IsConsistent}
use gin_demo.Balance.Types.{RegisterWalletParams, TxParties}
use gin_demo.Balance.Store.Owner.{Owned, WalletStep, run_wallet_steps, run_wallet_steps-Owned}
use gin_demo.Balance.Syncer.{Syncer, refresh_for_tx}
use gin_demo.Balance.Syncer.Parties.{balances_of, refresh_for_tx-Beside}

abbrev hot_wallet : CustodialWallet
hot_wallet = record {
  address = codes "0xab";
  user_id = codes "Ann";
  label = codes "hot";
  wallet_type = WalletType.hot;
  enabled = true;
  created_at = 0;
  updated_at = 0;
}

empty-IsConsistent : IsConsistent new_registry
unfolding new_registry has_key lookup
empty-IsConsistent key = refl

abbrev stored_world : World Db
stored_world = record {
  db = record empty_db { balance = record { rows = []; wallets = hot_wallet ∷ [] } };
  faults = false ∷ false ∷ true ∷ [];
  clock = 5;
}

abbrev claimed_by : Text → RegisterWalletParams
claimed_by user = record {
  address = codes " 0xAB";
  user_id = user;
  label = [];
  wallet_type = some WalletType.hot;
}

abbrev changes : List WalletStep
changes =
    WalletStep.register (claimed_by (codes "bob"))
    ∷ WalletStep.register (claimed_by (codes "ANN"))
    ∷ WalletStep.set_enabled (codes "0xAB") false
    ∷ []

run_wallet_steps-Owned_example :
    Owned (codes "0xab") WalletType.hot (codes "Ann") (run_wallet_steps changes stored_world).1.db
unfolding text_eq is_empty
run_wallet_steps-Owned_example =
    run_wallet_steps-Owned (codes "0xab") WalletType.hot (codes "Ann") changes stored_world refl
      (hot_wallet, refl, refl, refl)

abbrev wallets : Registry
wallets = record { set = codes "0xab" ∷ []; wallets = (codes "0xab", hot_wallet) ∷ [] }

abbrev syncer : Syncer
syncer = record {
  is_hex_address = λ _. true;
  hex = λ a. a;
  balance_at = λ _. ok (pos 7);
  erc20_balance_of = λ _ _. ok (pos 8);
  custodial_only = true;
  watch_tokens = [];
  registry = some wallets;
}

abbrev parties : TxParties
parties = record {
  tx_hash = codes "0x01";
  from = codes "0xAB";
  to = codes "0xCD";
  token_addr = [];
  is_erc20 = false;
  block_number = 3;
}

refresh_for_tx-Beside_example :
    balances_of (codes "0xcd") (refresh_for_tx syncer parties stored_world).1.db
    ≡ balances_of (codes "0xcd") stored_world.db
unfolding text_eq to_lower lower_byte trim_space is_registered has_key is_empty
refresh_for_tx-Beside_example =
    refresh_for_tx-Beside syncer wallets parties (codes "0xcd") stored_world refl refl (λ _. refl)
      (λ stranger. cc)
