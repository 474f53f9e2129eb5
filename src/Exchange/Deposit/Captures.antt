-- ===== src/Exchange/Deposit/Captures.antt =====
-- What a capture keeps, the capture of a native transfer and of a token transfer keep.
use gin_demo.Prelude.{ℕ, Bool, Option, none, some}
use gin_demo.Prelude.Text.{Text}
use gin_demo.Sql.Rules.{From, From-pure, From-choose}
use gin_demo.Schema.{Db}
use gin_demo.Exchange.Types.{CaptureDepositParams}
use gin_demo.Exchange.Deposit.{
  DepositProcessor, capture_for, capture_and_credit, capture_native_tx, capture_erc20_transfer,
}

-- Every capture with the processor's notifier keeps `P`.
abbrev pub CapturesKeep : (Db → Type 0) → DepositProcessor → Type 0
CapturesKeep P p =
    (base : Db) (params : CaptureDepositParams) (d : Db)
    → P d
    → From d (capture_and_credit p.webhook base params) (λ _ d'. P d')

module _ (P : Db → Type 0) (p : DepositProcessor) (captures : CapturesKeep P p) where
  capture_for-keeps :
      (user : Option Text) (base : Db) (params : Text → CaptureDepositParams) (d : Db)
      → P d
      → From d (capture_for user p base params) (λ _ d'. P d')
  capture_for-keeps none base params d h = From-pure tt h
  capture_for-keeps (some user) base params d h = captures base (params user) d h

  pub capture_native_tx-keeps :
      (base : Db) (block : ℕ) (tx_hash from to value : Text) (success : Bool) (d : Db)
      → P d
      → From d (capture_native_tx p base block tx_hash from to value success) (λ _ d'. P d')
  unfolding capture_native_tx
  capture_native_tx-keeps base block tx_hash from to value success d h =
      From-choose (λ _. From-pure tt h) (λ _. capture_for-keeps _ base _ d h)

  pub capture_erc20_transfer-keeps :
      (base : Db) (block : ℕ) (tx_hash : Text) (index : ℕ) (contract from to amount : Text) (d : Db)
      → P d
      → From d
          (capture_erc20_transfer p base block tx_hash index contract from to amount)
          (λ _ d'. P d')
  unfolding capture_erc20_transfer
  capture_erc20_transfer-keeps base block tx_hash index contract from to amount d h =
      From-choose (λ _. From-pure tt h) (λ _. capture_for-keeps _ base _ d h)
