-- ===== src/Sql/Runs.antt =====
-- What an action does when no statement fails: it returns a result, rule by rule.
use gin_demo.Sql.Keeps.{Keeps}
use gin_demo.Prelude.{none, some, ℕ, ◌≡◌, refl, Bool, true, false, []}
use gin_demo.Sql.{
  Error, Result, ok, err, World, Session, pure, lift, choose, continue, ◌>>=◌, ◌>>◌, guard, now,
  exec, query, memory, in_tx, ignore, attempt, no_rows, optional, duplicate, or_if_duplicate,
  end_tx,
}

module _ {D A : Type 0} where
  abbrev pub Ran : (A → D → Type 0) → Result A × World D → Type 0
  Ran Q (ok a, w) = (w.faults ≡ []) × Q a w.db
  Ran Q (err e, w) = ⊥

  -- From the tables `d`, when no statement fails, `m` returns a result in `Q`.
  pub record Runs (d : D) (m : Session D A) (Q : A → D → Type 0) : Type 0 where
    pub at : (w : World D) → w.db ≡ d → w.faults ≡ [] → Ran Q (m w)

module _ {D A : Type 0} {d : D} {Q : A → D → Type 0} where
  -- the result that a run returns
  pub returned :
      {m : Session D A}
      → Runs d m Q
      → (w : World D) → w.db ≡ d
      → w.faults ≡ []
      → (a : A) × ((m w).0 ≡ ok a) × Q a (m w).1.db
  returned {m} h w e calm = go (m w) (h.at w e calm)
    where
      go : (r : Result A × World D) → Ran Q r → (a : A) × (r.0 ≡ ok a) × Q a r.1.db
      go (ok a, w) p = (a, refl, p.1)
      go (err x, w) p = absurd p

  pub Runs-pure : (a : A) → Q a d → Runs d (pure a) Q
  unfolding pure
  Runs-pure a h = record { at = λ w e calm. (calm, rw e h) }

  pub Runs-lift : (a : A) → Q a d → Runs d (lift (ok a)) Q
  unfolding lift
  Runs-lift a h = record { at = λ w e calm. (calm, rw e h) }

  pub Runs-memory : (f : D → A × D) → Q (f d).0 (f d).1 → Runs d (memory f) Q
  unfolding memory
  Runs-memory f h = record { at = λ w e calm. (calm, rw e h) }

  pub Runs-exec :
      (f : D → Result (A × D)) {a : A} {d' : D} → f d ≡ ok (a, d') → Q a d' → Runs d (exec f) Q
  unfolding exec
  Runs-exec f e h = record { at = λ w same calm. rw (calm, same, e) (refl, h) }

  pub Runs-query : (f : D → Result A) {a : A} → f d ≡ ok a → Q a d → Runs d (query f) Q
  unfolding query
  Runs-query f e h = record { at = λ w same calm. rw (calm, same, e) (refl, h) }

  pub Runs-choose :
      {b : Bool} {m n : Session D A}
      → (b ≡ true → Runs d m Q)
      → (b ≡ false → Runs d n Q)
      → Runs d (choose b m n) Q
  unfolding choose
  Runs-choose {b = true} hm hn = hm refl
  Runs-choose {b = false} hm hn = hn refl

  pub Runs-weaken :
      {R : A → D → Type 0} {m : Session D A}
      → Runs d m R
      → ((a : A) (d' : D) → R a d' → Q a d')
      → Runs d m Q
  Runs-weaken {R} {m} hm h = record { at = λ w e calm. go (m w) (hm.at w e calm) }
    where
      go : (r : Result A × World D) → Ran R r → Ran Q r
      go (ok a, w) p = (p.0, h a w.db p.1)
      go (err x, w) p = p

  pub Runs-in_tx : (body : D → Session D A) → Runs d (body d) Q → Runs d (in_tx body) Q
  unfolding in_tx
  Runs-in_tx body h = record {
    at = λ w e calm. rw calm (
        go w.db (body w.db (record w { faults = [] }))
          (rw e (h.at (record { db = d; faults = []; clock = w.clock }) refl refl)));
  }
    where
      go : (before : D) (r : Result A × World D) → Ran Q r → Ran Q (end_tx before r)
      go before (ok a, w) p = rw (p.0) (refl, p.1)
      go before (err x, w) p = absurd p

  -- an `INSERT` of a new row, and one of a row that is there
  pub Runs-insert :
      (f : D → Result (A × D)) (a0 : A) {a : A} {d' : D}
      → f d ≡ ok (a, d')
      → Q a d'
      → Runs d (or_if_duplicate (exec f) a0) Q
  unfolding or_if_duplicate exec
  Runs-insert f a0 e h = record { at = λ w same calm. rw (calm, same, e) (refl, h) }

  pub Runs-absorbed :
      (f : D → Result (A × D)) (a0 : A)
      → f d ≡ err duplicate
      → Q a0 d
      → Runs d (or_if_duplicate (exec f) a0) Q
  unfolding or_if_duplicate exec
  Runs-absorbed f a0 e h = record { at = λ w same calm. rw (calm, same, e) (refl, h) }

module _ {D A B : Type 0} {d : D} {Q : B → D → Type 0} where
  pub Runs-call :
      {R : A → D → Type 0} {m : Session D A} {f : A → Session D B}
      → Runs d m R
      → ((a : A) (d' : D) → R a d' → Runs d' (f a) Q)
      → Runs d (m >>= f) Q
  unfolding ◌>>=◌
  Runs-call {R} {m} {f} hm hf = record { at = λ w e calm. go (m w) (hm.at w e calm) }
    where
      go : (r : Result A × World D) → Ran R r → Ran Q (continue r.0 f r.1)
      go (ok a, w) h = (hf a w.db h.1).at w refl h.0
      go (err e, w) h = absurd h

  pub Runs-exec-then :
      (f : D → Result (A × D)) (k : A → Session D B) {a : A} {d' : D}
      → f d ≡ ok (a, d')
      → Runs d' (k a) Q
      → Runs d (exec f >>= k) Q
  Runs-exec-then f k {a} {d'} e h =
      Runs-call {R = λ x y. (x ≡ a) × (y ≡ d')} (Runs-exec f e (refl, refl))
        λ x y same. rw (same.0, same.1) h

  pub Runs-query-then :
      (f : D → Result A) (k : A → Session D B) {a : A}
      → f d ≡ ok a
      → Runs d (k a) Q
      → Runs d (query f >>= k) Q
  Runs-query-then f k {a} e h =
      Runs-call {R = λ x y. (x ≡ a) × (y ≡ d)} (Runs-query f e (refl, refl))
        λ x y same. rw (same.0, same.1) h

  pub Runs-memory-then :
      (f : D → A × D) (k : A → Session D B) → Runs (f d).1 (k (f d).0) Q → Runs d (memory f >>= k) Q
  unfolding ◌>>=◌
  Runs-memory-then f k h = record {
    at = λ w e calm. rw e (h.at (record w { db = (f d).1 }) refl calm);
  }

  pub Runs-lift-then :
      (r : Result A) (k : A → Session D B) {a : A}
      → r ≡ ok a
      → Runs d (k a) Q
      → Runs d (lift r >>= k) Q
  unfolding ◌>>=◌
  Runs-lift-then r k e h = record { at = λ w same calm. rw e (h.at w same calm) }

module _ {D B : Type 0} {d : D} {Q : B → D → Type 0} where
  pub Runs-guard-then :
      (b : Bool) (e : Error) {n : Session D B} → b ≡ true → Runs d n Q → Runs d (guard b e >> n) Q
  unfolding ◌>>=◌
  Runs-guard-then b e h hn = record { at = λ w p calm. rw h (hn.at w p calm) }

  pub Runs-now-then : {k : ℕ → Session D B} → ((at : ℕ) → Runs d (k at) Q) → Runs d (now >>= k) Q
  unfolding ◌>>=◌
  Runs-now-then h = record { at = λ w p calm. (h w.clock).at w p calm }

module _ {D A : Type 0} {d : D} {Q : Unit {0} → D → Type 0} where
  pub Runs-ignore : {m : Session D A} → Runs d m (λ _ d'. Q tt d') → Runs d (ignore m) Q
  unfolding ignore
  Runs-ignore {m} h = record { at = λ w e calm. go (m w) (h.at w e calm) }
    where
      go : (r : Result A × World D) → Ran (λ _ d'. Q tt d') r → Ran Q (ignore (λ _. r) r.1)
      go (ok a, w) p = p
      go (err x, w) p = absurd p

module _ {D A : Type 0} {d : D} where
  -- an action whose error is handled, and which does not fail
  pub Runs-attempt :
      {R : A → D → Type 0} {m : Session D A}
      → Runs d m R
      → Runs d (attempt m) (λ r d'. (a : A) × (r ≡ ok a) × R a d')
  unfolding attempt
  Runs-attempt {R} {m} h = record { at = λ w e calm. go (m w) (h.at w e calm) }
    where
      go :
          (r : Result A × World D)
          → Ran R r
          → (r.1.faults ≡ []) × ((a : A) × (r.0 ≡ ok a) × R a r.1.db)
      go (ok a, w) p = (p.0, (a, refl, p.1))
      go (err x, w) p = absurd p

module _ {D A : Type 0} {d : D} where
  -- a query that finds nothing, which the caller handles
  pub Runs-missing :
      (f : D → Result A)
      → f d ≡ err no_rows
      → Runs d (optional (query f)) (λ r d'. (r ≡ none) × (d' ≡ d))
  unfolding optional query
  Runs-missing f e = record { at = λ w same calm. rw (calm, same, e) (refl, (refl, refl)) }

  pub Runs-found :
      (f : D → Result A) {a : A}
      → f d ≡ ok a
      → Runs d (optional (query f)) (λ r d'. (r ≡ some a) × (d' ≡ d))
  unfolding optional query
  Runs-found f e = record { at = λ w same calm. rw (calm, same, e) (refl, (refl, refl)) }

module _ {D A : Type 0} where
  -- From the tables `d`, when no statement fails, `m` ends in tables `P`, with a result or an error.
  pub record Ends (d : D) (m : Session D A) (P : D → Type 0) : Type 0 where
    pub at : (w : World D) → w.db ≡ d → w.faults ≡ [] → P (m w).1.db

module _ {D A : Type 0} {d : D} {P : D → Type 0} where
  pub Ends-Keeps : {m : Session D A} → Keeps P m → P d → Ends d m P
  Ends-Keeps h p = record { at = λ w e calm. h.at w (rw e p) }

module _ {D A B : Type 0} {d : D} {P : D → Type 0} where
  pub Ends-call :
      {R : A → D → Type 0} {m : Session D A} {f : A → Session D B}
      → Runs d m R
      → ((a : A) (d' : D) → R a d' → Ends d' (f a) P)
      → Ends d (m >>= f) P
  unfolding ◌>>=◌
  Ends-call {R} {m} {f} hm hf = record { at = λ w e calm. go (m w) (hm.at w e calm) }
    where
      go : (r : Result A × World D) → Ran R r → P (continue r.0 f r.1).1.db
      go (ok a, w) h = (hf a w.db h.1).at w refl h.0
      go (err x, w) h = absurd h
