-- ===== src/Exchange/Tests/Withdrawals.antt =====
-- The withdrawals' theorems at one stored request.
use gin_demo.Prelude.{◌≡◌, refl, true, none, some, [], ◌∷◌, arith}
use gin_demo.Prelude.Int.{pos}
use gin_demo.Prelude.Text.{Text, codes, text_eq}
use gin_demo.Sql.{World, err, Error, pure, fail, db_error}
use gin_demo.Sql.Rules.{From}
use gin_demo.Schema.{Db, empty_db}
use gin_demo.Exchange.Types.{WithdrawRequest, WithdrawStatus, CreateWithdrawParams, empty_tables}
use gin_demo.Exchange.Ledger.Audit.{IsAudited, empty-IsAudited}
use gin_demo.Exchange.Withdraw.Broadcast.{process_approved_withdraw}
use gin_demo.Exchange.Withdraw.{
  Outside, Settings, create_withdraw, fail_withdraw_and_unfreeze, approve_withdraw,
}
use gin_demo.Exchange.Withdraw.Claim.{process_approved-refused, approve_withdraw-refused}
use gin_demo.Exchange.Withdraw.Refusal.{
  create_withdraw-refused, fail_withdraw-SameMoney, MarkedFailed,
}
use gin_demo.Exchange.Deposit.Recapture.{SameMoney}

abbrev request : WithdrawStatus → WithdrawRequest
request status = record {
  id = 1;
  user_id = codes "alice";
  token_address = [];
  to_address = codes "0xb";
  amount_wei = codes "40";
  status = status;
  from_wallet = none;
  tx_hash = some (codes "0xt");
  reviewer = none;
  reviewed_at = none;
  reject_reason = none;
  idempotency_key = some (codes "k");
  created_at = 1;
  updated_at = 1;
}

abbrev with_request : WithdrawStatus → Db
with_request status = record empty_db {
  exchange = record empty_tables { withdraws = request status ∷ []; next_withdraw_id = 2 };
}

abbrev calm : Db → World Db
calm d = record { db = d; faults = []; clock = 9 }

abbrev params : Text → CreateWithdrawParams
params key = record {
  user_id = codes "alice";
  token_address = [];
  to_address = codes "0xB";
  amount_wei = codes "40";
  idempotency_key = key;
}

-- An outside where every address is good and every send fails.
abbrev outside : Outside
outside = record {
  is_hex_address = λ a. true;
  list_wallets = pure [];
  private_key = λ a. pure tt;
  send_native = λ from to amount meta. fail db_error;
  send_erc20 = λ from token to amount meta. fail db_error;
  message = λ e. codes "failed";
}

abbrev settings : Settings
settings = record { auto_approve_withdraw = true; hot_withdraw_max = pos 50; configured = true }

with_request-IsAudited : (status : WithdrawStatus) → IsAudited (with_request status)
with_request-IsAudited status = empty-IsAudited (with_request status) refl refl

process_approved-refused_example :
    (e : Error) × ((process_approved_withdraw outside settings
        (request WithdrawStatus.approved)
        (calm (with_request WithdrawStatus.broadcasting))).0
      ≡ err e)
    × ((process_approved_withdraw outside settings
          (request WithdrawStatus.approved)
          (calm (with_request WithdrawStatus.broadcasting))).1.db
        ≡ with_request WithdrawStatus.broadcasting)
process_approved-refused_example =
    process_approved-refused outside settings (request WithdrawStatus.approved)
      (calm (with_request WithdrawStatus.broadcasting)) (refl, tt)

create_withdraw-refused_example :
    (e : Error) × ((create_withdraw outside settings
        (params (codes "new"))
        (calm (with_request WithdrawStatus.approved))).0
      ≡ err e)
    × ((create_withdraw outside settings
          (params (codes "new"))
          (calm (with_request WithdrawStatus.approved))).1.db
        ≡ with_request WithdrawStatus.approved)
unfolding text_eq
create_withdraw-refused_example =
    create_withdraw-refused outside settings (params (codes "new"))
      (calm (with_request WithdrawStatus.approved)) (omega arith, tt) refl

fail_withdraw-SameMoney_example :
    From
      (with_request WithdrawStatus.broadcasting)
      (fail_withdraw_and_unfreeze (request WithdrawStatus.broadcasting) (codes "reverted"))
      (λ _ d'. SameMoney (with_request WithdrawStatus.broadcasting) d' × MarkedFailed 1 d')
fail_withdraw-SameMoney_example =
    fail_withdraw-SameMoney (request WithdrawStatus.broadcasting) (codes "reverted")
      (with_request WithdrawStatus.broadcasting) tt

approve_withdraw-refused_example :
    (e : Error) × ((approve_withdraw 1
        (codes "bob")
        (calm (with_request WithdrawStatus.rejected))).0
      ≡ err e)
    × ((approve_withdraw 1 (codes "bob") (calm (with_request WithdrawStatus.rejected))).1.db
        ≡ with_request WithdrawStatus.rejected)
approve_withdraw-refused_example =
    approve_withdraw-refused 1 (codes "bob") (calm (with_request WithdrawStatus.rejected))
      (refl, tt)
