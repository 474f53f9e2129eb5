-- ===== src/Indexer/Reorg/Rollback.antt =====
-- What a reorg leaves in the tables.
use gin_demo.Prelude.{
  ℕ, ◌≤◌, ◌≡◌, refl, not, ◌&&◌, Option, none, some, List, [], ◌∷◌, All, update_where, leb, arith,
  Bool-cases, inl, inr,
}
use gin_demo.Prelude.Text.{Text}
use gin_demo.Sql.Rules.{
  From, From-pure, From-choose, From-call, From-total, From-total-then, From-now-then,
}
use gin_demo.Schema.{Db}
use gin_demo.Exchange.Deposit.Beside.{handle_reorg_tx-beside}
use gin_demo.Exchange.Deposit.{DepositProcessor}
use gin_demo.Indexer.Types.{BlockRow, BlockStatus, Checkpoint, block_tag}
use gin_demo.Indexer.Engine.{Engine}
use gin_demo.Indexer.Store.{
  is_orphaned, as_orphaned, rolled_back, mark_orphaned_from, rollback_checkpoint,
}
use gin_demo.Indexer.Reorg.{reverse_deposits, roll_back_tx}

-- Every block from the number on is orphaned.
abbrev pub OrphanedFrom : ℕ → List BlockRow → Type 0
OrphanedFrom from blocks =
    All (λ (b : BlockRow). from ≤ b.block_number → b.status ≡ BlockStatus.orphaned) blocks

-- The checkpoint stands at the number, and confirms no more than it did and nothing above the number.
abbrev pub StandsAt : ℕ → Text → Option Checkpoint → Option Checkpoint → Type 0
StandsAt num hash none after = after ≡ none
StandsAt num hash (some before) none = ⊥
StandsAt num hash (some before) (some after) =
    (after.last_block_number ≡ num)
    × (after.last_block_hash ≡ hash)
    × (after.confirmed_block_number ≤ num)
    × (after.confirmed_block_number ≤ before.confirmed_block_number)

abbrev pub RolledBack : ℕ → Text → Db → Db → Type 0
RolledBack num hash d d' =
    OrphanedFrom num d'.indexer.blocks
    × StandsAt num hash d.indexer.checkpoint d'.indexer.checkpoint

orphaned_tag : (s : BlockStatus) → block_tag s ≡ 2 → s ≡ BlockStatus.orphaned
orphaned_tag BlockStatus.pending h = absurd (omega (arith, h))
orphaned_tag BlockStatus.confirmed h = absurd (omega (arith, h))
orphaned_tag BlockStatus.orphaned h = refl

marked :
    (from : ℕ) (blocks : List BlockRow)
    → OrphanedFrom from
        (update_where (λ b. leb from b.block_number && not (is_orphaned b)) as_orphaned blocks)
marked from [] = tt
marked from (b ∷ blocks) = elim (Bool-cases (leb from b.block_number && not (is_orphaned b))) [
  | inl hit ↦ rw hit ((λ _. refl), marked from blocks)
  | inr miss ↦ rw miss ((λ high. orphaned_tag b.status (ground arith)), marked from blocks)
]

rolled_back-StandsAt :
    (num at : ℕ) (hash : Text) (cp : Option Checkpoint)
    → StandsAt num hash cp (rolled_back num hash at cp)
rolled_back-StandsAt num at hash none = refl
rolled_back-StandsAt num at hash (some cp) = (refl, refl, omega arith, omega arith)

reverse_deposits-RolledBack :
    (deposit : Option DepositProcessor) (num : ℕ) (hash : Text) (before d : Db)
    → RolledBack num hash before d
    → From d (reverse_deposits deposit num) (λ _ d'. RolledBack num hash before d')
reverse_deposits-RolledBack none num hash before d h = From-pure tt h
reverse_deposits-RolledBack (some p) num hash before d h =
    From-choose
      (λ _. handle_reorg_tx-beside (λ d'. RolledBack num hash before d') (λ d t h. h) p num d h)
      (λ _. From-pure tt h)

-- The transaction of a reorg, when it goes through, leaves every block from the parent's number on
-- orphaned, and the checkpoint at that number with the parent's hash, confirming nothing above it.
pub roll_back_tx-RolledBack :
    (e : Engine) (num : ℕ) (hash : Text) (d : Db)
    → From d (roll_back_tx e num hash) (λ _ d'. RolledBack num hash d d')
unfolding roll_back_tx mark_orphaned_from rollback_checkpoint
roll_back_tx-RolledBack e num hash d = From-total-then _ _ refl (
    From-call {R = λ _ d'. RolledBack num hash d d'}
      (From-now-then λ at.
        From-total _ refl
          (marked num d.indexer.blocks, rolled_back-StandsAt num at hash d.indexer.checkpoint))
      λ _ d1 h. reverse_deposits-RolledBack e.deposit num hash d d1 h)
