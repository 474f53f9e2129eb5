-- ===== src/Tx/Nonce/Laws.antt =====
-- Nonces that are handed out one after the other, with a synchronisation between them.
use gin_demo.Prelude.{
  ℕ, suc, ◌^◌, ◌≤◌, ◌<◌, ◌≡◌, refl, Option, none, some, List, [], ◌∷◌, arith, find_first,
  update_where, Bool-cases, Option-cases, inl, inr, ap, ◌∙◌,
}
use gin_demo.Prelude.Text.{Text, text_eq, text_eq_refl, to_lower}
use gin_demo.Sql.{ok, World, pure, ◌>>=◌, ◌>>◌}
use gin_demo.Sql.Rules.{
  From, From-pure, From-call, From-query-then, From-total-then, From-now-then, From-in_tx,
  From-weaken,
}
use gin_demo.Schema.{Db, Action}
use gin_demo.Tx.Types.{WalletNonce}
use gin_demo.Tx.Nonce.{
  next_of, stored_nonce, add_nonce, allocate, raise_nonce, sync_from_chain, greatest, take_nonce,
  allocate_tx, successor,
}

set_row :
    (addr : Text) (next at old : ℕ) (rows : List WalletNonce)
    → next_of (find_first (λ n. text_eq n.address addr) rows) ≡ some old
    → next_of (
        find_first
          (λ n. text_eq n.address addr)
          (update_where
            (λ n. text_eq n.address addr)
            (λ n. record n { next_nonce = next; updated_at = at })
            rows))
      ≡ some next
set_row addr next at old [] h = cc
set_row addr next at old (n ∷ rows) h = elim (Bool-cases (text_eq n.address addr)) [
  | inl hit ↦ rw (hit, hit) refl
  | inr miss ↦ rw (miss, miss) (set_row addr next at old rows (rw miss at h))
]

stored-add :
    (addr : Text) (next at : ℕ) (d : Db) → stored_nonce addr (add_nonce addr next at d) ≡ some next
stored-add addr next at d = rw (text_eq_refl addr) refl

-- The `uint64` that follows the nonce just handed out is stored.
abbrev pub Taken : Text → ℕ → Db → Type 0
Taken addr n d = stored_nonce addr d ≡ some (successor n)

-- The node's answer changes no table, and has a successor below 2 ^ 64.
abbrev pub OnlyReads : Action ℕ → Type 0
OnlyReads m = (d : Db) → From d m (λ n d'. (suc n < 2 ^ 64) × (d' ≡ d))

-- A stored nonce has a successor below 2 ^ 64.
abbrev pub HasRoom : Text → Db → Type 0
HasRoom addr d = (n : ℕ) → stored_nonce addr d ≡ some n → suc n < 2 ^ 64

-- The next allocation hands out at least `n`.
abbrev pub AtLeast : Text → ℕ → Db → Type 0
AtLeast addr n d = (next : ℕ) × (stored_nonce addr d ≡ some next) × (n ≤ next)

-- What an allocation hands out, on tables whose stored nonce is `before`.
abbrev Allocated : Text → Option ℕ → ℕ → Db → Type 0
Allocated addr before n d =
    Taken addr n d × ((next : ℕ) → before ≡ some next → n ≡ next) × (before ≡ none → suc n < 2 ^ 64)

module _ (node : Action ℕ) (reads : OnlyReads node) where
  taken :
      (addr : Text) (d : Db) (found : Option ℕ)
      → stored_nonce addr d ≡ found
      → From d (take_nonce addr node found) (λ n d'. Allocated addr (stored_nonce addr d) n d')
  taken addr d none e = From-call (reads d) λ pending d1 (small, same). rw same (
      From-now-then λ at. From-total-then _ _ refl (
        From-pure pending
          (stored-add addr (successor pending) at d, (λ next h. cc (rw e at h)), λ _. small)))
  taken addr d (some n) e = From-now-then λ at. From-total-then _ _ refl (
      From-pure n (
        set_row addr (successor n) at n d.tracker.nonces e,
        (λ next h. let k = rw e at h in cc),
        λ h. cc (rw e at h),
      ))

  -- An allocation hands out the stored nonce, if there is one, and stores the one that follows.
  pub allocate-Taken :
      (addr : Text) (d : Db)
      → From d
          (allocate addr node)
          (λ n d'. Allocated (to_lower addr) (stored_nonce (to_lower addr) d) n d')
  unfolding allocate
  allocate-Taken addr d = From-in_tx _ (
      From-query-then _ λ found e.
        let read : stored_nonce (to_lower addr) d ≡ found = cc in
        taken (to_lower addr) d found read)

  kept_back :
      (addr : Text) (n pending at : ℕ) (d : Db)
      → AtLeast addr n d
      → AtLeast addr n (raise_nonce addr pending at d)
  kept_back addr n pending at d (next, stored, h) = rw stored (
    greatest next pending,
    set_row addr (greatest next pending) at next d.tracker.nonces stored,
    ground arith,
  )

  -- A synchronisation with the chain never takes a nonce back.
  pub sync-AtLeast :
      (addr : Text) (n : ℕ) (d : Db)
      → AtLeast (to_lower addr) n d
      → From d (sync_from_chain addr node) (λ _ d'. AtLeast (to_lower addr) n d')
  unfolding sync_from_chain
  sync-AtLeast addr n d h = From-call (reads d) λ pending d1 (small, same). rw same (
      From-now-then λ at.
        From-total-then _ _ refl (From-pure pending (kept_back (to_lower addr) n pending at d h)))

  allocate_above :
      (addr : Text) (n : ℕ) (d : Db)
      → AtLeast (to_lower addr) n d
      → From d (allocate addr node) (λ m _. n ≤ m)
  allocate_above addr n d (next, stored, h) =
      From-weaken (allocate-Taken addr d) λ m d' r. let e = r.1 next stored in omega (arith, e, h)

  first_room :
      (addr : Text) (d : Db) (n : ℕ) (d' : Db)
      → HasRoom addr d
      → Allocated addr (stored_nonce addr d) n d'
      → stored_nonce addr d' ≡ some (suc n)
  first_room addr d n d' room (taken, kept, fresh) =
      let small : suc n < 2 ^ 64 = elim (Option-cases (stored_nonce addr d)) [
        | inl nothing ↦ fresh nothing
        | inr (next, found) ↦ rw (kept next found) (room next found)
      ] in
      let same : successor n ≡ suc n = omega (arith, small) in rw same at taken

  -- Two allocations of a wallet with a synchronisation between them: the second nonce is above the
  -- first one. The node's answer changes no table, and neither it nor the nonce that is stored at
  -- first is the greatest `uint64`.
  pub allocate_sync_allocate-increases :
      (addr : Text) (d : Db)
      → HasRoom (to_lower addr) d
      → From {A = ℕ × ℕ} d
          (do
            first ← allocate addr node
            sync_from_chain addr node
            second ← allocate addr node
            pure (first, second))
          (λ nonces _. nonces.0 < nonces.1)
  allocate_sync_allocate-increases addr d room = From-call (allocate-Taken addr d) λ first d1 r1.
      From-call {R = λ _ d2. AtLeast (to_lower addr) (suc first) d2}
        (sync-AtLeast addr (suc first) d1
          (suc first, first_room (to_lower addr) d first d1 room r1, omega arith))
        λ _ d2 r2.
          From-call (allocate_above addr (suc first) d2 r2)
            λ second d3 r3. From-pure (first, second) (omega (arith, r3))

abbrev pub or_pending : Option ℕ → ℕ → ℕ
or_pending none pending = pending
or_pending (some next) pending = next

-- With no failing statement, an allocation succeeds: it answers the stored nonce of the wallet, or the
-- node's pending nonce if none is stored, and the nonce that follows is stored. The nonce is not the
-- greatest `uint64`.
pub allocate-answers :
    (addr : Text) (pending : ℕ) (w : World Db)
    → w.faults ≡ []
    → suc (or_pending (stored_nonce (to_lower addr) w.db) pending) < 2 ^ 64
    → ((allocate addr (pure pending) w).0
        ≡ ok (or_pending (stored_nonce (to_lower addr) w.db) pending))
      × (stored_nonce (to_lower addr) (allocate addr (pure pending) w).1.db
          ≡ some (suc (or_pending (stored_nonce (to_lower addr) w.db) pending)))
unfolding allocate allocate_tx ◌>>=◌
allocate-answers addr pending w calm small =
    elim (Option-cases (stored_nonce (to_lower addr) w.db)) [
      | inl none_stored ↦
          let next : successor pending ≡ suc pending = omega (arith, (rw none_stored at small)) in
          rw (calm, none_stored)
            (refl, stored-add (to_lower addr) (successor pending) w.clock w.db ∙ ap some next)
      | inr (n, found) ↦
          let next : successor n ≡ suc n = omega (arith, (rw found at small)) in
          rw (calm, found)
            (
              refl,
              set_row (to_lower addr) (successor n) w.clock n w.db.tracker.nonces found
                  ∙ ap some next,
            )
    ]
