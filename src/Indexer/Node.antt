-- ===== src/Indexer/Node.antt =====
-- What internal/indexer asks of the Ethereum node (package internal/eth over go-ethereum). The node
-- is a parameter: a record of what it answers to each call. A number is a `uint64`, a hash and an
-- address are their `Hex()` texts.
use gin_demo.Prelude.{ℕ, Option, List}
use gin_demo.Prelude.Text.{Text}
use gin_demo.Indexer.Events.{Log}

-- `types.Receipt`
pub record Receipt : Type 0 where
  pub status : ℕ
  pub gas_used : ℕ
  pub logs : List Log

-- `types.Transaction`, with the sender that `types.Sender` recovers from its signature
pub record ChainTx : Type 0 where
  pub hash : Text
  pub sender : Option Text
  pub to : Option Text
  pub value : ℕ

-- `types.Block`
pub record Block : Type 0 where
  pub number : ℕ
  pub hash : Text
  pub parent_hash : Text
  pub time : ℕ
  pub gas_used : ℕ
  pub transactions : List ChainTx

-- An answer of none is an error of the call or a nil.
pub record Node : Type 0 where
  pub block_number : Option ℕ
  pub block_by_number : ℕ → Option Block
  pub transaction_receipt : Text → Option Receipt
