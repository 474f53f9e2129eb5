-- ===== src/Sql/Keeps.antt =====
-- What an action keeps however it ends, and that a transaction which fails has changed nothing.
use gin_demo.Prelude.{◌≡◌, refl, sym, subst, Bool, true, false, Bool-cases, inl, inr, ◌∙◌}
use gin_demo.Sql.{
  Error, no_rows, Result, ok, err, World, Session, pure, fail, lift, deferred, guard, now, choose,
  continue, ◌>>=◌, statement, later, exec, query, memory, write_back, end_tx, in_tx, ignore,
  optional, missing_as_none, attempt,
}
use gin_demo.Sql.Rules.{Post, From, From-in_tx}

module _ {D A : Type 0} where
  -- However `m` ends, its tables satisfy `P` again.
  pub record Keeps (P : D → Type 0) (m : Session D A) : Type 0 where
    pub at : (w : World D) → P w.db → P (m w).1.db

module _ {D A : Type 0} (P : D → Type 0) where
  post_kept :
      (before : D) (r : Result A × World D)
      → P before
      → Post (λ _ d. P d) r
      → P (end_tx before r).1.db
  post_kept before (err e, w) p h = p
  post_kept before (ok a, w) p h = elim (Bool-cases (statement w.faults)) [
    | inl bad ↦ rw bad p
    | inr good ↦ rw good h
  ]

module _ {D A : Type 0} (P : D → Type 0) where
  kept_optional : (r : Result A × World D) → P r.1.db → P (missing_as_none r).1.db
  kept_optional (ok a, w) p = p
  kept_optional (err no_rows, w) p = p
  kept_optional (err _, w) p = p

module _ {D A : Type 0} {P : D → Type 0} where
  -- A transaction whose body ends in `P` keeps `P`, also when it is rolled back.
  pub Keeps-in_tx :
      (body : D → Session D A)
      → ((d : D) → P d → From d (body d) (λ _ d'. P d'))
      → Keeps P (in_tx body)
  unfolding in_tx
  Keeps-in_tx body h = record {
    at = λ w p. elim (Bool-cases (statement w.faults)) [
      | inl bad ↦ rw bad p
      | inr good ↦
          rw good (post_kept P w.db _ p ((h w.db p).at (record w { faults = later w.faults }) refl))
    ];
  }

  pub Keeps-query : (f : D → Result A) → Keeps P (query f)
  unfolding query
  Keeps-query f = record {
    at =
        λ w p. elim (Bool-cases (statement w.faults)) [ inl bad ↦ rw bad p | inr good ↦ rw good p ];
  }

  kept-write_back :
      (r : Result (A × D)) (w : World D)
      → P w.db
      → ((a : A) (d : D) → r ≡ ok (a, d) → P d)
      → P (write_back r w).1.db
  kept-write_back (ok (a, d)) w p h = h a d refl
  kept-write_back (err e) w p h = p

  pub Keeps-exec :
      (f : D → Result (A × D))
      → ((d : D) → P d → (a : A) (d' : D) → f d ≡ ok (a, d') → P d')
      → Keeps P (exec f)
  unfolding exec
  Keeps-exec f h = record {
    at = λ w p. elim (Bool-cases (statement w.faults)) [
      | inl bad ↦ rw bad p
      | inr good ↦
          rw good (kept-write_back (f w.db) (record w { faults = later w.faults }) p (h w.db p))
    ];
  }

  -- a statement that always succeeds
  pub Keeps-update :
      (f : D → Result (A × D)) {a : D → A} {g : D → D}
      → ((d : D) → f d ≡ ok (a d, g d))
      → ((d : D) → P d → P (g d))
      → Keeps P (exec f)
  Keeps-update f {a} {g} e h = Keeps-exec f λ d p x d' s.
      let same : ◌≡◌ {A = Result (A × D)} (ok (a d, g d)) (ok (x, d')) = sym (e d) ∙ s in
      let kept : g d ≡ d' = cc in subst P kept (h d p)

  pub Keeps-memory : (f : D → A × D) → ((d : D) → P d → P (f d).1) → Keeps P (memory f)
  unfolding memory
  Keeps-memory f h = record { at = λ w p. h w.db p }

  pub Keeps-fail : (e : Error) → Keeps P (fail {A = A} e)
  unfolding fail
  Keeps-fail e = record { at = λ w p. p }

  pub Keeps-lift : (r : Result A) → Keeps P (lift r)
  unfolding lift
  Keeps-lift r = record { at = λ w p. p }

  pub Keeps-deferred :
      (f : D → D) (m : Session D A) → ((d : D) → P d → P (f d)) → Keeps P m → Keeps P (deferred f m)
  unfolding deferred
  Keeps-deferred f m hf h = record { at = λ w p. hf _ (h.at w p) }

  pub Keeps-pure : (a : A) → Keeps P (pure a)
  unfolding pure
  Keeps-pure a = record { at = λ w p. p }

  pub Keeps-choose : (b : Bool) (m n : Session D A) → Keeps P m → Keeps P n → Keeps P (choose b m n)
  unfolding choose
  Keeps-choose true m n hm hn = hm
  Keeps-choose false m n hm hn = hn

  -- the branch that is taken
  pub Keeps-branch :
      (b : Bool) (m n : Session D A)
      → (b ≡ true → Keeps P m)
      → (b ≡ false → Keeps P n)
      → Keeps P (choose b m n)
  unfolding choose
  Keeps-branch true m n hm hn = hm refl
  Keeps-branch false m n hm hn = hn refl

  pub Keeps-optional : (m : Session D A) → Keeps P m → Keeps P (optional m)
  unfolding optional
  Keeps-optional m h = record { at = λ w p. kept_optional P (m w) (h.at w p) }

  pub Keeps-ignore : (m : Session D A) → Keeps P m → Keeps P (ignore m)
  unfolding ignore
  Keeps-ignore m h = record { at = λ w p. h.at w p }

module _ {D A : Type 0} {P : D → Type 0} where
  pub Keeps-attempt : (m : Session D A) → Keeps P m → Keeps P (attempt m)
  unfolding attempt
  Keeps-attempt m h = record { at = λ w p. h.at w p }

module _ {D A B : Type 0} {P : D → Type 0} where
  pub Keeps-bind :
      {m : Session D A} {f : A → Session D B}
      → Keeps P m
      → ((a : A) → Keeps P (f a))
      → Keeps P (m >>= f)
  unfolding ◌>>=◌
  Keeps-bind {m} {f} hm hf = record { at = λ w p. go (m w) (hm.at w p) }
    where
      go : (r : Result A × World D) → P r.1.db → P (continue r.0 f r.1).1.db
      go (ok a, w) h = (hf a).at w h
      go (err e, w) h = h

module _ {D A : Type 0} where
  end_tx-err :
      (before : D) (r : Result A × World D) {e : Error}
      → (end_tx before r).0 ≡ err e
      → (end_tx before r).1.db ≡ before
  end_tx-err before (err e, w) h = refl
  end_tx-err before (ok a, w) h = elim (Bool-cases (statement w.faults)) [
    | inl bad ↦ rw bad refl
    | inr good ↦ cc (rw good at h)
  ]

  -- A transaction that returns an error leaves the tables as they were.
  pub in_tx-err :
      (body : D → Session D A) (w : World D) {e : Error}
      → (in_tx body w).0 ≡ err e
      → (in_tx body w).1.db ≡ w.db
  unfolding in_tx
  in_tx-err body w h = elim (Bool-cases (statement w.faults)) [
    | inl bad ↦ rw bad refl
    | inr good ↦
        rw good (end_tx-err w.db (body w.db (record w { faults = later w.faults })) (rw good at h))
  ]

module _ {D : Type 0} {P : D → Type 0} where
  pub Keeps-guard : (b : Bool) (e : Error) → Keeps P (guard b e)
  unfolding guard
  Keeps-guard true e = record { at = λ w p. p }
  Keeps-guard false e = record { at = λ w p. p }

  pub Keeps-now : Keeps P now
  unfolding now
  Keeps-now = record { at = λ w p. p }

module _ {D A : Type 0} where
  -- How a transaction whose error is handled has ended: committed in `Q`, or with nothing changed.
  abbrev pub Outcome : (A → D → Type 0) → D → Result A → D → Type 0
  Outcome Q d (ok a) d' = Q a d'
  Outcome Q d (err e) d' = d' ≡ d

  outcome :
      (Q : A → D → Type 0) (d : D) (r : Result A × World D)
      → Post Q r
      → ((e : Error) → r.0 ≡ err e → r.1.db ≡ d)
      → Outcome Q d r.0 r.1.db
  outcome Q d (ok a, w) h k = h
  outcome Q d (err e, w) h k = k e refl

  pub From-attempt_tx :
      {d : D} {Q : A → D → Type 0} (body : D → Session D A)
      → From d (body d) Q
      → From d (attempt (in_tx body)) (Outcome Q d)
  unfolding attempt
  From-attempt_tx {d} {Q} body h = record {
    at = λ w e.
        outcome Q d (in_tx body w) ((From-in_tx body h).at w e) (λ x k. in_tx-err body w k ∙ e);
  }

module _ {D A : Type 0} {d : D} where
  -- What reads only, with its error handled.
  pub From-attempt : (m : Session D A) → Keeps (λ x. x ≡ d) m → From d (attempt m) (λ _ d'. d' ≡ d)
  unfolding attempt
  From-attempt m h = record { at = λ w e. h.at w e }
