-- ===== src/Tx/Node.antt =====
-- What internal/tx asks of the node and of the signing code (packages internal/eth and go-ethereum).
-- Both are parameters: records of what they answer. A hash and an address are their `Hex()` texts.
use gin_demo.Prelude.{ℕ, Bool, Option, ◌∷◌}
use gin_demo.Prelude.Int.{ℤ}
use gin_demo.Prelude.Text.{Text}
use gin_demo.Sql.{Result, memory}
use gin_demo.Schema.{Action}
use gin_demo.Tx.Types.{TxFormat, TxType}

-- `types.Transaction`, known by its hash
pub record Signed : Type 0 where
  pub hash : Text

-- `eth.SendResult`: a zero address and a nil number are none
pub record SendResult : Type 0 where
  pub hash : Text
  pub from : Text
  pub to : Text
  pub token : Option Text
  pub value : ℤ
  pub nonce : ℕ
  pub gas_limit : ℕ
  pub gas_price : Option ℤ
  pub max_fee_per_gas : Option ℤ
  pub max_priority_fee : Option ℤ
  pub tx_format : Option TxFormat
  pub tx_type : Option TxType

-- `types.Receipt`
pub record Receipt : Type 0 where
  pub failed : Bool
  pub gas_used : ℕ
  pub block_number : ℕ

pub record TxNode : Type 0 where
  pub block_number : Result ℕ
  pub pending_nonce : Text → Result ℕ
  pub decode_raw : Text → Result Signed
  pub validate_chain : Signed → Result (Unit {0})
  pub send_result : Signed → Result SendResult
  pub raw_hex : Signed → Result Text
  -- the error text of a send that is refused
  pub send_signed : Signed → Option Text
  -- whether the transaction is still pending, if the node knows it
  pub transaction_by_hash : Text → Option Bool
  pub transaction_receipt : Text → Option Receipt

-- what a private key signs: the address that it belongs to, and the transfers
pub record Signer : Type 0 where
  pub address : Text
  pub sign_native : Text → ℤ → ℕ → Result (Signed × SendResult)
  pub sign_erc20 : Text → Text → ℤ → ℕ → Result (Signed × SendResult)
  pub sign_speed_up_native : Text → Option ℤ → ℕ → ℕ → Bool → Result (Signed × SendResult)
  pub sign_speed_up_erc20 : Text → Text → Option ℤ → ℕ → ℕ → Bool → Result (Signed × SendResult)

-- `SendSignedTransaction`, with the error text if it is refused
unfoldable pub send_transaction : TxNode → Signed → Action (Option Text)
send_transaction node signed =
    memory (λ db. (node.send_signed signed, record db { wire = signed.hash ∷ db.wire }))
