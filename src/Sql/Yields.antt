-- ===== src/Sql/Yields.antt =====
-- What is known of the answer of an action that keeps a property of the tables.
use gin_demo.Prelude.{◌≡◌, refl, Bool, true, false, Bool-cases, inl, inr, Option, none, some}
use gin_demo.Sql.{
  Error, no_rows, Result, ok, err, World, Session, pure, ◌>>=◌, continue, guard, query, optional,
  missing_as_none, statement, later,
}
use gin_demo.Sql.Keeps.{Keeps}

abbrev pub Answered : {A : Type 0} → (A → Type 0) → Result A → Type 0
Answered R (ok a) = R a
Answered R (err e) = Unit

module _ {D A : Type 0} where
  -- From tables in `P`, `m` ends in `P`, and what it answers is in `R`.
  pub record Yields (P : D → Type 0) (m : Session D A) (R : A → Type 0) : Type 0 where
    pub at : (w : World D) → P w.db → P (m w).1.db × Answered R (m w).0

module _ {D A B : Type 0} {P : D → Type 0} where
  pub Keeps-answer :
      {R : A → Type 0} {m : Session D A} {f : A → Session D B}
      → Yields P m R
      → ((a : A) → R a → Keeps P (f a))
      → Keeps P (m >>= f)
  unfolding ◌>>=◌
  Keeps-answer {R} {m} {f} hm hf = record { at = λ w p. let (h, r) = hm.at w p in go (m w) h r }
    where
      go : (r : Result A × World D) → P r.1.db → Answered R r.0 → P (continue r.0 f r.1).1.db
      go (ok a, w) h known = (hf a known).at w h
      go (err e, w) h known = h

module _ {D A : Type 0} {P : D → Type 0} where
  -- What follows a guard knows that its test holds.
  pub Keeps-guard-then :
      (f : Unit {0} → Session D A) (b : Bool) (e : Error)
      → (b ≡ true → Keeps P (f tt))
      → Keeps P (guard b e >>= f)
  unfolding ◌>>=◌ guard
  Keeps-guard-then f true e h = record { at = λ w p. (h refl).at w p }
  Keeps-guard-then f false e h = record { at = λ w p. p }

-- a row that a query has found
abbrev pub Found : {A : Type 0} → (A → Type 0) → Option A → Type 0
Found R none = Unit
Found R (some a) = R a

module _ {D A : Type 0} where
  answered :
      (R : A → Type 0) (r : Result A) (w : World D)
      → ((a : A) → r ≡ ok a → R a)
      → Answered (Found R) (missing_as_none (r, w)).0
  answered R (ok a) w h = h a refl
  answered R (err no_rows) w h = tt
  answered R (err _) w h = tt

  unchanged : (r : Result A) (w : World D) → (missing_as_none (r, w)).1 ≡ w
  unchanged (ok a) w = refl
  unchanged (err no_rows) w = refl
  unchanged (err _) w = refl

module _ {D A : Type 0} {P : D → Type 0} where
  pub Yields-optional :
      {R : A → Type 0} (f : D → Result A)
      → ((d : D) → P d → (a : A) → f d ≡ ok a → R a)
      → Yields P (optional (query f)) (Found R)
  unfolding optional query
  Yields-optional {R} f h = record {
    at = λ w p. elim (Bool-cases (statement w.faults)) [
      | inl bad ↦ rw bad (p, tt)
      | inr good ↦
          let sent = record w { faults = later w.faults } in
          rw (good, unchanged (f w.db) sent) (p, answered R (f w.db) sent (h w.db p))
    ];
  }

  pub Yields-pure : {R : A → Type 0} (a : A) → R a → Yields P (pure a) R
  unfolding pure
  Yields-pure a r = record { at = λ w p. (p, r) }

module _ {D A B : Type 0} {P : D → Type 0} where
  pub Yields-then :
      {R : B → Type 0} {m : Session D A} {f : A → Session D B}
      → Keeps P m
      → ((a : A) → Yields P (f a) R)
      → Yields P (m >>= f) R
  unfolding ◌>>=◌
  Yields-then {R} {m} {f} hm hf = record { at = λ w p. go (m w) (hm.at w p) }
    where
      go :
          (r : Result A × World D)
          → P r.1.db
          → P (continue r.0 f r.1).1.db × Answered R (continue r.0 f r.1).0
      go (ok a, w) h = (hf a).at w h
      go (err e, w) h = (h, tt)
