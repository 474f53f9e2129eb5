-- ===== src/Balance/Types.antt =====
-- internal/balance/types.go and the tables of internal/balance/schema.go, restricted to the chain of
-- the store as in the exchange. A NULL text is read as the empty text.
use gin_demo.Prelude.{ℕ, Bool, Option, List, []}
use gin_demo.Prelude.Text.{Text}
use gin_demo.Balance.Registry.{CustodialWallet, WalletType}

-- the token of the native coin
abbrev pub native_token : Text
native_token = []

pub record Row : Type 0 where
  pub address : Text
  pub token_address : Text
  pub balance_wei : Text
  pub block_number : ℕ
  pub source_tx_hash : Text
  pub updated_at : ℕ

-- A type that is not given is none; the API admits no other text than the three types.
pub record RegisterWalletParams : Type 0 where
  pub address : Text
  pub user_id : Text
  pub label : Text
  pub wallet_type : Option WalletType

pub record RegisterWalletResult : Type 0 where
  pub wallet : CustodialWallet
  pub created : Bool

pub record TxParties : Type 0 where
  pub tx_hash : Text
  pub from : Text
  pub to : Text
  pub token_addr : Text
  pub is_erc20 : Bool
  pub block_number : ℕ

pub record Tables : Type 0 where
  pub rows : List Row
  pub wallets : List CustodialWallet

abbrev pub empty_tables : Tables
empty_tables = record { rows = []; wallets = [] }
