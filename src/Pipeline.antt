-- ===== src/Pipeline.antt =====
-- internal/pipeline/bus.go: the two bounded channels between the listeners of the chain and the
-- workers that count what they see. Every send, every round of a worker and the closing of the
-- channels is one step; what the indexer keeps is a parameter. Log output is left out.
pub mod Bounds
mod Tests
use gin_demo.Prelude.{
  ℕ, suc, ◌%◌, ◌^◌, Bool, true, false, Option, none, some, List, [], ◌∷◌, ◌++◌, ltb, leb, ◌==◌,
  if◌then◌else◌, length, drop,
}
use gin_demo.Prelude.Text.{Text, codes}
use gin_demo.Exchange.Wei.{decimal}

-- `types.Header` and `types.Log`, as far as the bus reads them
pub record Header : Type 0 where
  pub number : ℕ
  pub hash : Text

pub record Log : Type 0 where
  pub tx_hash : Text
  pub block_number : ℕ

pub record ChainIndexer (I : Type 0) : Type 0 where
  pub enqueue_header : Header → I → I
  pub enqueue_transfer_log : Log → I → I

pub record Bus : Type 0 where
  pub worker_count : ℕ
  pub channel_buffer : ℕ
  pub header_ch : List Header
  pub transfer_ch : List Log
  pub closed : Bool
  pub headers_seen : ℕ
  pub transfers_seen : ℕ
  pub lasts : List Text

abbrev or_default : ℕ → ℕ → ℕ
or_default n default = if n == 0 then default else n

unfoldable pub new_bus : ℕ → ℕ → Bus
new_bus worker_count channel_buffer = record {
  worker_count = or_default worker_count 2;
  channel_buffer = or_default channel_buffer 16;
  header_ch = [];
  transfer_ch = [];
  closed = false;
  headers_seen = 0;
  transfers_seen = 0;
  lasts = [];
}

-- `atomic.AddUint64(&n, 1)`
abbrev pub add_one : ℕ → ℕ
add_one n = suc n % 2 ^ 64

-- `appendLast`
unfoldable pub append_last : Text → List Text → List Text
append_last line lasts = (if leb 20 (length lasts) then drop 1 lasts else lasts) ++ (line ∷ [])

abbrev header_line : ℕ → Header → Text
header_line id h =
    codes "[worker-"
    ++ decimal id
    ++ codes "] header #"
    ++ decimal h.number
    ++ codes " hash="
    ++ h.hash

abbrev transfer_line : Log → Text
transfer_line l =
    codes "ERC20 Transfer tx=" ++ l.tx_hash ++ codes " block=" ++ decimal l.block_number

-- a round of `worker`, which waits while the channel is empty
abbrev pub count_header : ℕ → List Header → Bus → Bus
count_header id [] b = b
count_header id (h ∷ rest) b = record b {
  header_ch = rest;
  headers_seen = add_one b.headers_seen;
  lasts = append_last (header_line id h) b.lasts;
}

unfoldable pub worker : ℕ → Bus → Bus
unfolding append_last
worker id b = count_header id b.header_ch b

abbrev pub count_transfer : List Log → Bus → Bus
count_transfer [] b = b
count_transfer (l ∷ rest) b = record b {
  transfer_ch = rest;
  transfers_seen = add_one b.transfers_seen;
  lasts = append_last (transfer_line l) b.lasts;
}

unfoldable pub transfer_worker : Bus → Bus
unfolding append_last
transfer_worker b = count_transfer b.transfer_ch b

-- `select { case ch <- x: default: }`: what is in the channel afterwards
abbrev pub send : {A : Type 0} → ℕ → A → List A → List A
send buffer x ch = if ltb (length ch) buffer then ch ++ (x ∷ []) else ch

-- a send on a closed channel panics, which is none
abbrev pub unless_closed : Bus → Bus → Option Bus
unless_closed b after = if b.closed then none else some after

module _ {I : Type 0} where
  abbrev pub index_header : Option (ChainIndexer I) → Header → I → I
  index_header none h i = i
  index_header (some x) h i = x.enqueue_header h i

  abbrev pub index_transfer_log : Option (ChainIndexer I) → Log → I → I
  index_transfer_log none l i = i
  index_transfer_log (some x) l i = x.enqueue_transfer_log l i

  -- `SubmitHeader`: the indexer is given the header first, also when the send panics
  unfoldable pub submit_header : Option (ChainIndexer I) → Header → Bus × I → Option Bus × I
  submit_header x h (b, i) = (
    unless_closed b (record b { header_ch = send b.channel_buffer h b.header_ch }),
    index_header x h i,
  )

  -- `SubmitTransferLog`
  unfoldable pub submit_transfer_log : Option (ChainIndexer I) → Log → Bus × I → Option Bus × I
  submit_transfer_log x l (b, i) = (
    unless_closed b (record b { transfer_ch = send b.channel_buffer l b.transfer_ch }),
    index_transfer_log x l i,
  )

-- what `Start` does when the context ends
unfoldable pub close_channels : Bus → Bus
close_channels b = record b { closed = true }

unfoldable pub stats : Bus → ℕ × ℕ × List Text
stats b = (b.headers_seen, b.transfers_seen, b.lasts)

pub data Step : Type 0 where
  header : Header → Step
  transfer : Log → Step
  work : ℕ → Step
  work_transfer : Step
  close : Step

module _ {I : Type 0} where
  unfoldable pub run_step : Option (ChainIndexer I) → Step → Bus × I → Option Bus × I
  unfolding submit_header submit_transfer_log worker transfer_worker close_channels
  run_step x (Step.header h) s = submit_header x h s
  run_step x (Step.transfer l) s = submit_transfer_log x l s
  run_step x (Step.work id) (b, i) = (some (worker id b), i)
  run_step x Step.work_transfer (b, i) = (some (transfer_worker b), i)
  run_step x Step.close (b, i) = (some (close_channels b), i)

  -- Steps in the order in which they happen, until one panics.
  unfoldable pub run_steps : Option (ChainIndexer I) → List Step → Option Bus × I → Option Bus × I
  unfolding run_step
  run_steps x rest (none, i) = (none, i)
  run_steps x [] (some b, i) = (some b, i)
  run_steps x (step ∷ rest) (some b, i) = run_steps x rest (run_step x step (b, i))
