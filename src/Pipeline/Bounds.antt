-- ===== src/Pipeline/Bounds.antt =====
-- The sizes of the channels and of the list of recent lines, and the count of the headers.
use gin_demo.Prelude.{
  ℕ, suc, ◌+◌, ◌≤◌, ◌≡◌, refl, ◌∙◌, Bool, true, false, Bool-cases, inl, inr, Option, none, some,
  List, [], ◌∷◌, ltb, leb, length, length-append, arith,
}
use gin_demo.Prelude.Text.{Text}
use gin_demo.Pipeline.{
  Header, Log, ChainIndexer, Bus, new_bus, add_one, append_last, worker, count_header,
  transfer_worker, count_transfer, unless_closed, send, submit_header, submit_transfer_log, Step,
  run_step, run_steps,
}

-- how many headers are submitted
unfoldable pub headers_in : List Step → ℕ
headers_in [] = 0
headers_in (Step.header h ∷ rest) = suc (headers_in rest)
headers_in (_ ∷ rest) = headers_in rest

-- The bounds of a bus that has been given `n` headers.
pub record IsBounded (n : ℕ) (b : Bus) : Type 0 where
  pub headers : length b.header_ch ≤ b.channel_buffer
  pub transfers : length b.transfer_ch ≤ b.channel_buffer
  pub recent : length b.lasts ≤ 20
  pub counted : b.headers_seen + length b.header_ch ≤ n

module _ {A : Type 0} where
  length-send :
      (buffer : ℕ) (x : A) (ch : List A)
      → length ch ≤ buffer
      → (length (send buffer x ch) ≤ buffer) × (length (send buffer x ch) ≤ suc (length ch))
  length-send buffer x ch h = elim (Bool-cases (ltb (length ch) buffer)) [
    | inl free ↦
        rw free
          (ground (arith, length-append ch (x ∷ [])), ground (arith, length-append ch (x ∷ [])))
    | inr full ↦ rw full (h, omega arith)
  ]

length-append_last :
    (line : Text) (lasts : List Text) → length lasts ≤ 20 → length (append_last line lasts) ≤ 20
unfolding append_last
length-append_last line [] h = omega arith
length-append_last line (x ∷ rest) h = elim (Bool-cases (leb 20 (length (x ∷ rest)))) [
  | inl full ↦ rw full (ground (arith, length-append rest (line ∷ [])))
  | inr free ↦ rw free (ground (arith, length-append rest (line ∷ [])))
]

add_one_le : (n : ℕ) → add_one n ≤ suc n
add_one_le n = omega arith

submit-IsBounded :
    (n : ℕ) (h : Header) (b : Bus)
    → IsBounded n b
    → IsBounded (suc n) (record b { header_ch = send b.channel_buffer h b.header_ch })
submit-IsBounded n h b p =
    let (low, step) = length-send b.channel_buffer h b.header_ch p.headers in
    record {
      headers = low;
      transfers = p.transfers;
      recent = p.recent;
      counted = omega (arith, step, p.counted);
    }

submit_log-IsBounded :
    (n : ℕ) (l : Log) (b : Bus)
    → IsBounded n b
    → IsBounded n (record b { transfer_ch = send b.channel_buffer l b.transfer_ch })
submit_log-IsBounded n l b p = record {
  headers = p.headers;
  transfers = (length-send b.channel_buffer l b.transfer_ch p.transfers).0;
  recent = p.recent;
  counted = p.counted;
}

work-IsBounded :
    (n id : ℕ) (ch : List Header) (b : Bus)
    → b.header_ch ≡ ch
    → IsBounded n b
    → IsBounded n (count_header id ch b)
work-IsBounded n id [] b e p = p
work-IsBounded n id (h ∷ rest) b e p =
    let full = rw e at p.headers in
    let before = rw e at p.counted in
    record {
      headers = omega (arith, full);
      transfers = p.transfers;
      recent = length-append_last _ b.lasts p.recent;
      counted = omega (arith, before, add_one_le b.headers_seen);
    }

work_transfer-IsBounded :
    (n : ℕ) (ch : List Log) (b : Bus)
    → b.transfer_ch ≡ ch
    → IsBounded n b
    → IsBounded n (count_transfer ch b)
work_transfer-IsBounded n [] b e p = p
work_transfer-IsBounded n (l ∷ rest) b e p =
    let full = rw e at p.transfers in
    record {
      headers = p.headers;
      transfers = omega (arith, full);
      recent = length-append_last _ b.lasts p.recent;
      counted = p.counted;
    }

grown : {n m : ℕ} {b : Bus} → n ≤ m → IsBounded n b → IsBounded m b
grown low p = record {
  headers = p.headers;
  transfers = p.transfers;
  recent = p.recent;
  counted = omega (arith, low, p.counted);
}

-- Such a bus, open for more.
abbrev Goes : {I : Type 0} → ℕ → Option Bus × I → Type 0
Goes n s = (b : Bus) × (s.0 ≡ some b) × (b.closed ≡ false) × IsBounded n b

unfoldable pub closes : List Step → Bool
closes [] = false
closes (Step.close ∷ rest) = true
closes (_ ∷ rest) = closes rest

sent : (b after : Bus) → b.closed ≡ false → unless_closed b after ≡ some after
sent b after e = rw e refl

count_header-closed :
    (id : ℕ) (ch : List Header) (b : Bus) → (count_header id ch b).closed ≡ b.closed
count_header-closed id [] b = refl
count_header-closed id (h ∷ rest) b = refl

count_transfer-closed : (ch : List Log) (b : Bus) → (count_transfer ch b).closed ≡ b.closed
count_transfer-closed [] b = refl
count_transfer-closed (l ∷ rest) b = refl

split :
    (n : ℕ) (step : Step) (rest : List Step)
    → closes (step ∷ rest) ≡ false
    → (closes (step ∷ []) ≡ false)
      × (closes rest ≡ false)
      × (headers_in (step ∷ rest) + n ≡ headers_in rest + (headers_in (step ∷ []) + n))
unfolding closes headers_in
split n (Step.header h) rest c = (refl, c, omega arith)
split n (Step.transfer l) rest c = (refl, c, omega arith)
split n (Step.work id) rest c = (refl, c, omega arith)
split n Step.work_transfer rest c = (refl, c, omega arith)
split n Step.close rest c = cc

module _ {I : Type 0} (x : Option (ChainIndexer I)) where
  step-Goes :
      (n : ℕ) (step : Step) (b : Bus) (i : I)
      → closes (step ∷ []) ≡ false
      → b.closed ≡ false
      → IsBounded n b
      → Goes (headers_in (step ∷ []) + n) (run_step x step (b, i))
  unfolding headers_in closes run_step submit_header submit_transfer_log worker transfer_worker
  step-Goes n (Step.header h) b i c e p =
      (_, sent b _ e, e, grown (omega arith) (submit-IsBounded n h b p))
  step-Goes n (Step.transfer l) b i c e p =
      (_, sent b _ e, e, grown (omega arith) (submit_log-IsBounded n l b p))
  step-Goes n (Step.work id) b i c e p = (
    _,
    refl,
    count_header-closed id b.header_ch b ∙ e,
    grown (omega arith) (work-IsBounded n id b.header_ch b refl p),
  )
  step-Goes n Step.work_transfer b i c e p = (
    _,
    refl,
    count_transfer-closed b.transfer_ch b ∙ e,
    grown (omega arith) (work_transfer-IsBounded n b.transfer_ch b refl p),
  )
  step-Goes n Step.close b i c e p = cc

  steps-Goes :
      (n : ℕ) (steps : List Step) (s : Option Bus × I)
      → closes steps ≡ false
      → Goes n s
      → Goes (headers_in steps + n) (run_steps x steps s)
  unfolding run_steps headers_in
  steps-Goes n steps (none, i) c (b, e, shut, p) = cc
  steps-Goes n [] (some b, i) c (b', e, shut, p) = (b', e, shut, grown (omega arith) p)
  steps-Goes n (step ∷ rest) (some b, i) c (b', e, shut, p) =
      let same : b' ≡ b = cc in
      let (first, more, sum) = split n step rest c in
      rw sum (
        steps-Goes (headers_in (step ∷ []) + n) rest (run_step x step (b, i)) more
          (step-Goes n step b i first (rw same at shut) (rw same at p)))

new-IsBounded :
    (workers buffer : ℕ)
    → ((new_bus workers buffer).closed ≡ false) × IsBounded 0 (new_bus workers buffer)
unfolding new_bus
new-IsBounded workers buffer = (
  refl,
  record {
    headers = omega arith;
    transfers = omega arith;
    recent = omega arith;
    counted = omega arith;
  },
)

-- As long as the channels are not closed, a new bus goes through any sends and any rounds of its
-- workers, in any order, without a panic; no channel holds more than its buffer, at most twenty recent
-- lines are kept, and the headers counted and waiting are no more than those submitted.
pub run_steps-IsBounded :
    {I : Type 0} (x : Option (ChainIndexer I)) (workers buffer : ℕ) (steps : List Step) (i : I)
    → closes steps ≡ false
    → (b : Bus) × ((run_steps x steps (some (new_bus workers buffer), i)).0 ≡ some b)
      × IsBounded (headers_in steps) b
run_steps-IsBounded x workers buffer steps i c =
    let (fresh, bounded) = new-IsBounded workers buffer in
    let (b, ran, shut, p) =
      steps-Goes x 0 steps (some (new_bus workers buffer), i) c
        (new_bus workers buffer, refl, fresh, bounded) in
    let total : headers_in steps + 0 ≡ headers_in steps = omega arith in (b, ran, rw total at p)
