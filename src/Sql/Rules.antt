-- ===== src/Sql/Rules.antt =====
-- What a successful action establishes from known tables, rule by rule.
use gin_demo.Prelude.{ℕ, ◌≡◌, refl, Bool, true, false, Option, none, some, Bool-cases, inl, inr}
use gin_demo.Sql.{
  Error, Result, ok, err, World, Session, pure, fail, lift, choose, continue, ◌>>=◌, ◌>>◌, guard,
  now, statement, later, exec, query, memory, write_back, end_tx, in_tx, ignore, or_if_duplicate,
  on_duplicate, duplicate, first_row,
}

module _ {D A : Type 0} where
  -- `Q` holds of an `ok` result and its tables.
  abbrev pub Post : (A → D → Type 0) → Result A × World D → Type 0
  Post Q (ok a, w) = Q a w.db
  Post Q (err e, w) = Unit

  -- From the tables `d`, `m` fails or ends in `Q`.
  pub record From (d : D) (m : Session D A) (Q : A → D → Type 0) : Type 0 where
    pub at : (w : World D) → w.db ≡ d → Post Q (m w)

module _ {D A : Type 0} (Q : A → D → Type 0) where
  Post-write_back :
      (r : Result (A × D)) (w : World D)
      → ((a : A) (d : D) → r ≡ ok (a, d) → Q a d)
      → Post Q (write_back r w)
  Post-write_back (ok (a, d)) w h = h a d refl
  Post-write_back (err e) w h = tt

  Post-read : (r : Result A) (w : World D) → ((a : A) → r ≡ ok a → Q a w.db) → Post Q (r, w)
  Post-read (ok a) w h = h a refl
  Post-read (err e) w h = tt

  Post-end_tx : (before : D) (r : Result A × World D) → Post Q r → Post Q (end_tx before r)
  Post-end_tx before (err e, w) h = tt
  Post-end_tx before (ok a, w) h = elim (Bool-cases (statement w.faults)) [
    | inl bad ↦ rw bad tt
    | inr good ↦ rw good h
  ]

module _ {D A : Type 0} {d : D} {Q : A → D → Type 0} where
  pub From-pure : (a : A) → Q a d → From d (pure a) Q
  unfolding pure
  From-pure a h = record { at = λ w e. rw e h }

  pub From-fail : (e : Error) → From d (fail e) Q
  unfolding fail
  From-fail e = record { at = λ w p. tt }

  pub From-exec :
      (f : D → Result (A × D)) → ((a : A) (d' : D) → f d ≡ ok (a, d') → Q a d') → From d (exec f) Q
  unfolding exec
  From-exec f h = record {
    at = λ w e. elim (Bool-cases (statement w.faults)) [
      | inl bad ↦ rw bad tt
      | inr good ↦ rw good (
          Post-write_back Q (f w.db) (record w { faults = later w.faults })
            (λ a d' k. h a d' (rw e at k)))
    ];
  }

  pub From-total :
      (f : D → Result (A × D)) {a : A} {d' : D} → f d ≡ ok (a, d') → Q a d' → From d (exec f) Q
  From-total f {a} {d'} e h =
      From-exec f
        λ a2 d2 e2. let same_a : a2 ≡ a = cc in let same_d : d2 ≡ d' = cc in rw (same_a, same_d) h

  pub From-query : (f : D → Result A) → ((a : A) → f d ≡ ok a → Q a d) → From d (query f) Q
  unfolding query
  From-query f h = record {
    at = λ w e. elim (Bool-cases (statement w.faults)) [
      | inl bad ↦ rw bad tt
      | inr good ↦ rw good (
          Post-read Q (f w.db) (record w { faults = later w.faults })
            (λ a k. rw e (h a (rw e at k))))
    ];
  }

  pub From-memory : (f : D → A × D) → Q (f d).0 (f d).1 → From d (memory f) Q
  unfolding memory
  From-memory f q = record { at = λ w e. rw e q }

  pub From-choose :
      {b : Bool} {m n : Session D A}
      → (b ≡ true → From d m Q)
      → (b ≡ false → From d n Q)
      → From d (choose b m n) Q
  unfolding choose
  From-choose {b = true} hm hn = hm refl
  From-choose {b = false} hm hn = hn refl

  -- A test whose outcome is known.
  pub From-else : (m n : Session D A) → From d n Q → From d (choose false m n) Q
  unfolding choose
  From-else m n hn = hn

  pub From-then : (m n : Session D A) → From d m Q → From d (choose true m n) Q
  unfolding choose
  From-then m n hm = hm

  pub From-weaken :
      {R : A → D → Type 0} {m : Session D A}
      → From d m R
      → ((a : A) (d' : D) → R a d' → Q a d')
      → From d m Q
  From-weaken {R} {m} hm h = record { at = λ w e. go (m w) (hm.at w e) }
    where
      go : (r : Result A × World D) → Post R r → Post Q r
      go (ok a, w) p = h a w.db p
      go (err x, w) p = tt

  -- The body runs on a copy of the committed tables.
  pub From-in_tx : (body : D → Session D A) → From d (body d) Q → From d (in_tx body) Q
  unfolding in_tx
  From-in_tx body h = record {
    at = λ w e. elim (Bool-cases (statement w.faults)) [
      | inl bad ↦ rw bad tt
      | inr good ↦ rw good (
          Post-end_tx Q w.db (body w.db (record w { faults = later w.faults }))
            (rw e (h.at (record { db = d; faults = later w.faults; clock = w.clock }) refl)))
    ];
  }

module _ {D A B : Type 0} {d : D} {Q : B → D → Type 0} where
  -- A call that is known by its own postcondition `R`.
  pub From-call :
      {R : A → D → Type 0} {m : Session D A} {f : A → Session D B}
      → From d m R
      → ((a : A) (d' : D) → R a d' → From d' (f a) Q)
      → From d (m >>= f) Q
  unfolding ◌>>=◌
  From-call {R} {m} {f} hm hf = record { at = λ w e. go (m w) (hm.at w e) }
    where
      go : (r : Result A × World D) → Post R r → Post Q (continue r.0 f r.1)
      go (ok a, w) h = (hf a w.db h).at w refl
      go (err e, w) h = tt

  pub From-exec-then :
      (f : D → Result (A × D)) {k : A → Session D B}
      → ((a : A) (d' : D) → f d ≡ ok (a, d') → From d' (k a) Q)
      → From d (exec f >>= k) Q
  From-exec-then f h =
      From-call {R = λ a d'. f d ≡ ok (a, d')} (From-exec f (λ a d' e. e)) (λ a d' e. h a d' e)

  pub From-query-then :
      (f : D → Result A) {k : A → Session D B}
      → ((a : A) → f d ≡ ok a → From d (k a) Q)
      → From d (query f >>= k) Q
  From-query-then f {k} h =
      From-call {R = λ a d'. (d' ≡ d) × (f d ≡ ok a)} (From-query f (λ a e. (refl, e)))
        (λ a d' e. rw e.0 (h a e.1))

  -- A statement whose outcome is plain.
  pub From-total-then :
      (f : D → Result (A × D)) (k : A → Session D B) {a : A} {d' : D}
      → f d ≡ ok (a, d')
      → From d' (k a) Q
      → From d (exec f >>= k) Q
  From-total-then f k {a} {d'} e h =
      From-exec-then f
        λ a2 d2 e2. let same_a : a2 ≡ a = cc in let same_d : d2 ≡ d' = cc in rw (same_a, same_d) h

  pub From-lift-then :
      (r : Result A) {k : A → Session D B}
      → ((a : A) → r ≡ ok a → From d (k a) Q)
      → From d (lift r >>= k) Q
  unfolding ◌>>=◌
  From-lift-then (ok a) {k} h = record { at = λ w e. (h a refl).at w e }
  From-lift-then (err x) {k} h = record { at = λ w e. tt }

module _ {D B : Type 0} {d : D} {Q : B → D → Type 0} where
  pub From-guard-then :
      (b : Bool) (e : Error) {n : Session D B} → (b ≡ true → From d n Q) → From d (guard b e >> n) Q
  unfolding ◌>>=◌
  From-guard-then true e h = record { at = λ w p. (h refl).at w p }
  From-guard-then false e h = record { at = λ w p. tt }

  pub From-now-then : {k : ℕ → Session D B} → ((at : ℕ) → From d (k at) Q) → From d (now >>= k) Q
  unfolding ◌>>=◌
  From-now-then h = record { at = λ w p. (h w.clock).at w p }

module _ {D A : Type 0} (Q : A → D → Type 0) where
  Post-on_duplicate :
      (r : Result (A × D)) (a0 : A) (w : World D)
      → (r ≡ err duplicate → Q a0 w.db)
      → ((a : A) (d' : D) → r ≡ ok (a, d') → Q a d')
      → Post Q (on_duplicate a0 (write_back r w))
  Post-on_duplicate (ok (a, d')) a0 w hd h = h a d' refl
  Post-on_duplicate (err duplicate) a0 w hd h = hd refl
  Post-on_duplicate (err _) a0 w hd h = tt

module _ {D A : Type 0} {d : D} {Q : A → D → Type 0} where
  -- An `INSERT` that answers `a0` on a duplicate key.
  pub From-insert :
      (f : D → Result (A × D)) (a0 : A)
      → (f d ≡ err duplicate → Q a0 d)
      → ((a : A) (d' : D) → f d ≡ ok (a, d') → Q a d')
      → From d (or_if_duplicate (exec f) a0) Q
  unfolding or_if_duplicate exec
  From-insert f a0 hd h = record {
    at = λ w e. elim (Bool-cases (statement w.faults)) [
      | inl bad ↦ rw bad tt
      | inr good ↦ rw good (
          Post-on_duplicate Q (f w.db) a0 (record w { faults = later w.faults })
            (λ k. rw e (hd (rw e at k))) (λ a d' k. h a d' (rw e at k)))
    ];
  }

module _ {D A : Type 0} {d : D} {Q : Unit {0} → D → Type 0} where
  pub From-ignore-query : (f : D → Result A) → Q tt d → From d (ignore (query f)) Q
  unfolding ignore query
  From-ignore-query f q = record {
    at = λ w e. elim (Bool-cases (statement w.faults)) [
      | inl bad ↦ rw (bad, e) q
      | inr good ↦ rw (good, e) q
    ];
  }

module _ {D A : Type 0} where
  -- What cannot succeed is an error.
  pub refused : (r : Result A × World D) → Post (λ _ _. ⊥) r → (e : Error) × (r.0 ≡ err e)
  refused (ok a, w) h = absurd h
  refused (err e, w) h = (e, refl)

pub first_row-ok : {A : Type 0} (found : Option A) {a : A} → first_row found ≡ ok a → found ≡ some a
first_row-ok none h = cc
first_row-ok (some a) h = cc
