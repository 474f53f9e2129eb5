-- ===== src/Exchange/Tests/Reports.antt =====
-- A reconciliation of one treasury wallet against the balances of two users.
use gin_demo.Prelude.{◌≡◌, refl, true, [], ◌∷◌}
use gin_demo.Prelude.Text.{Text, codes, text_eq, to_lower, lower_byte, trim_space}
use gin_demo.Sql.{World, ok, ◌>>=◌}
use gin_demo.Schema.{Db, empty_db}
use gin_demo.Balance.Registry.{CustodialWallet, WalletType}
use gin_demo.Balance.Types.{Row}
use gin_demo.Exchange.Types.{AccountBalance, empty_tables}
use gin_demo.Exchange.Ledger.{norm_token}
use gin_demo.Exchange.Reconcile.{reconcile_token}

abbrev treasury : CustodialWallet
treasury = record {
  address = codes "0xab";
  user_id = [];
  label = [];
  wallet_type = WalletType.treasury;
  enabled = true;
  created_at = 0;
  updated_at = 0;
}

abbrev treasury_balance : Row
treasury_balance = record {
  address = codes "0xab";
  token_address = [];
  balance_wei = codes "15";
  block_number = 3;
  source_tx_hash = [];
  updated_at = 0;
}

abbrev owns : Text → Text → Text → AccountBalance
owns user available frozen = record {
  user_id = user;
  token_address = [];
  available_wei = available;
  frozen_wei = frozen;
  updated_at = 0;
}

abbrev owed_world : World Db
owed_world = record {
  db = record empty_db {
    exchange = record empty_tables {
      accounts =
          owns (codes "ann") (codes "9") (codes "1")
          ∷ owns (codes "bob") (codes "5") (codes "0")
          ∷ [];
    };
    balance = record { rows = treasury_balance ∷ []; wallets = treasury ∷ [] };
  };
  faults = [];
  clock = 4;
}

in_order :
    (reconcile_token [] (treasury ∷ []) owed_world).0
    ≡ ok (record {
      token_address = [];
      on_chain_custodial = codes "15";
      user_liabilities = codes "15";
      diff_wei = codes "0";
      is_ok = true;
      generated_at = 4;
      details =
          record {
            address = codes "0xab";
            wallet_type = WalletType.treasury;
            balance_wei = codes "15";
          }
          ∷ [];
    })
unfolding reconcile_token text_eq to_lower lower_byte trim_space norm_token ◌>>=◌
in_order = refl
