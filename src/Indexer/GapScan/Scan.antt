-- ===== src/Indexer/GapScan/Scan.antt =====
-- What the scan for missing blocks finds, and where it starts.
use gin_demo.Prelude.{
  ◌^◌, ℕ, zero, suc, ◌+◌, ◌-◌, ◌≤◌, ◌<◌, ◌≡◌, refl, Bool, true, false, ◌⊎◌, inl, inr, List, [], ◌∷◌,
  ◌++◌, length, select, range, append-nil, append-append, leb, ltb, arith, Bool-cases, sym, ap, ◌∙◌,
}
use gin_demo.Indexer.GapScan.{Found, Sight, scan, scan_at, window_start}

abbrev pub is_missing : Sight → Bool
is_missing Sight.missing = true
is_missing Sight.good = false
is_missing Sight.bad = false

abbrev pub is_bad : Sight → Bool
is_bad Sight.missing = false
is_bad Sight.good = false
is_bad Sight.bad = true

abbrev pub missing_in : (ℕ → Sight) → ℕ → ℕ → List ℕ
missing_in see n count = select (λ i. is_missing (see i)) (range n count)

abbrev pub bad_in : (ℕ → Sight) → ℕ → ℕ → List ℕ
bad_in see n count = select (λ i. is_bad (see i)) (range n count)

-- The scan has looked at `seen` numbers from `n` on.
pub record Scanned (limit : ℕ) (see : ℕ → Sight) (rounds n : ℕ) (before after : Found)
    : Type 0 where
  pub seen : ℕ
  pub within : seen ≤ rounds
  pub gaps : after.gaps ≡ before.gaps ++ missing_in see n seen
  pub mismatches : after.mismatches ≡ before.mismatches ++ bad_in see n seen
  pub finished : (seen ≡ rounds) ⊎ (limit ≤ length after.gaps + length after.mismatches)

select-next :
    (test : ℕ → Bool) (n count : ℕ)
    → select test (range n 1) ++ select test (range (suc n) count)
      ≡ select test (range n (suc count))
select-next test n count = elim (Bool-cases (test n)) [
  | inl hit ↦ rw hit refl
  | inr miss ↦ rw miss refl
]

nothing-Scanned :
    (limit : ℕ) (see : ℕ → Sight) (rounds n : ℕ) (found : Found)
    → (0 ≡ rounds) ⊎ (limit ≤ length found.gaps + length found.mismatches)
    → Scanned limit see rounds n found found
nothing-Scanned limit see rounds n found over = record {
  seen = 0;
  within = omega arith;
  gaps = sym (append-nil found.gaps);
  mismatches = sym (append-nil found.mismatches);
  finished = over;
}

-- One number more in front.
next-Scanned :
    (limit : ℕ) (see : ℕ → Sight) (rounds n : ℕ) (before middle after : Found)
    → middle.gaps ≡ before.gaps ++ missing_in see n 1
    → middle.mismatches ≡ before.mismatches ++ bad_in see n 1
    → Scanned limit see rounds (suc n) middle after
    → Scanned limit see (suc rounds) n before after
next-Scanned limit see rounds n before middle after more_gaps more_bad s = record {
  seen = suc s.seen;
  within = omega (arith, s.within);
  gaps =
      s.gaps
      ∙ rw more_gaps
          (append-append before.gaps (missing_in see n 1) (missing_in see (suc n) s.seen))
      ∙ ap (λ xs. before.gaps ++ xs) (select-next (λ i. is_missing (see i)) n s.seen);
  mismatches =
      s.mismatches
      ∙ rw more_bad (append-append before.mismatches (bad_in see n 1) (bad_in see (suc n) s.seen))
      ∙ ap (λ xs. before.mismatches ++ xs) (select-next (λ i. is_bad (see i)) n s.seen);
  finished = elim (s.finished) [ inl all ↦ inl (ap suc all) | inr full ↦ inr full ];
}

scan_at-Scanned :
    (limit : ℕ) (see : ℕ → Sight) (rounds n : ℕ) (found : Found) (go : Found → Found) (s : Sight)
    → see n ≡ s
    → ((middle : Found) → Scanned limit see rounds (suc n) middle (go middle))
    → Scanned limit see (suc rounds) n found (scan_at limit n found go s)
scan_at-Scanned limit see rounds n found go Sight.missing e h =
    next-Scanned limit see rounds n found _ _ (rw e refl) (rw e (sym (append-nil found.mismatches)))
      (h (record found { gaps = found.gaps ++ n ∷ [] }))
scan_at-Scanned limit see rounds n found go Sight.good e h =
    next-Scanned limit see rounds n found _ _ (rw e (sym (append-nil found.gaps)))
      (rw e (sym (append-nil found.mismatches))) (h found)
scan_at-Scanned limit see rounds n found go Sight.bad e h =
    let more = record found { mismatches = found.mismatches ++ n ∷ [] } in
    let so_far : (after : Found)
        → Scanned limit see rounds (suc n) more after
        → Scanned limit see (suc rounds) n found after =
      λ after.
        next-Scanned limit see rounds n found more after (rw e (sym (append-nil found.gaps)))
          (rw e refl) in
    elim (Bool-cases (leb limit (length more.gaps + length more.mismatches))) [
      | inl full ↦
          rw full (so_far more (nothing-Scanned limit see rounds (suc n) more (inr (ground arith))))
      | inr open_yet ↦ rw open_yet (so_far _ (h more))
    ]

-- The scan answers, in order, exactly the missing numbers and exactly the numbers with another hash
-- of the part that it has seen; it has seen all, or as many are found as the limit says.
pub scan-Scanned :
    (limit : ℕ) (see : ℕ → Sight) (rounds n : ℕ) (found : Found)
    → Scanned limit see rounds n found (scan limit see rounds n found)
unfolding scan
scan-Scanned limit see zero n found = nothing-Scanned limit see zero n found (inl refl)
scan-Scanned limit see (suc rounds) n found = elim (Bool-cases (ltb (length found.gaps) limit)) [
  | inr full ↦ rw full (nothing-Scanned limit see (suc rounds) n found (inr (ground arith)))
  | inl free ↦ rw free (
      scan_at-Scanned limit see rounds n found (scan limit see rounds (suc n)) (see n) refl
        (scan-Scanned limit see rounds (suc n)))
]

shorter :
    (test : ℕ → Bool) (n count more : ℕ)
    → length (select test (range n count)) ≤ length (select test (range n (count + more)))
shorter test n zero more = omega arith
shorter test n (suc count) more =
    let shift : suc count + more ≡ suc (count + more) = omega arith in
    elim (Bool-cases (test n)) [
      | inl hit ↦ rw (shift, hit) (omega (arith, shorter test (suc n) count more))
      | inr miss ↦ rw (shift, miss) (shorter test (suc n) count more)
    ]

-- Fewer finds than the limit: the scan has found everything.
pub scan-all :
    (limit : ℕ) (see : ℕ → Sight) (rounds n : ℕ)
    → length (missing_in see n rounds) + length (bad_in see n rounds) < limit
    → ((scan limit see rounds n (record { gaps = []; mismatches = [] })).gaps
        ≡ missing_in see n rounds)
      × ((scan limit see rounds n (record { gaps = []; mismatches = [] })).mismatches
          ≡ bad_in see n rounds)
scan-all limit see rounds n few =
    let s = scan-Scanned limit see rounds n (record { gaps = []; mismatches = [] }) in
    elim (s.finished) [
      | inl all ↦ (s.gaps ∙ rw all refl, s.mismatches ∙ rw all refl)
      | inr full ↦
          let rest : s.seen + (rounds - s.seen) ≡ rounds = omega (arith, s.within) in
          let gaps = shorter (λ i. is_missing (see i)) n s.seen (rounds - s.seen) in
          let bad = shorter (λ i. is_bad (see i)) n s.seen (rounds - s.seen) in
          absurd (
            omega (
              arith,
              rw rest at gaps,
              rw rest at bad,
              ap length s.gaps,
              ap length s.mismatches,
              full,
            ))
    ]

-- The scan starts at most at the head; it reaches back over the whole window, and back to the block
-- after the checkpoint, if there is one.
pub window_start-covers :
    (window last head n : ℕ)
    → n ≤ head
    → last + 1 < 2 ^ 64
    → (head ≤ n + window) ⊎ ((0 < last) × (last < n))
    → (window_start window last head ≤ n) × (window_start window last head ≤ head)
unfolding window_start
window_start-covers window last head n below small reach = ground arith
