-- ===== src/Sql/Stops.antt =====
-- Actions that fail from known tables and leave them as they are.
use gin_demo.Prelude.{ℕ, ◌≡◌, refl, Bool, true, false}
use gin_demo.Sql.{Error, Result, ok, err, World, Session, guard, now, continue, ◌>>=◌, ◌>>◌}
use gin_demo.Sql.Rules.{Post, From}
use gin_demo.Sql.Keeps.{Keeps}

module _ {D B : Type 0} where
  -- From the tables `d`, `m` returns an error and the tables are still `d`.
  pub record Stops (d : D) (m : Session D B) : Type 0 where
    pub at : (w : World D) → w.db ≡ d → (e : Error) × ((m w).0 ≡ err e) × ((m w).1.db ≡ d)

module _ {D B : Type 0} {d : D} where
  pub Stops-guard :
      (b : Bool) (e : Error) {n : Session D B} → (b ≡ true → Stops d n) → Stops d (guard b e >> n)
  unfolding ◌>>=◌
  Stops-guard true e h = record { at = λ w p. (h refl).at w p }
  Stops-guard false e h = record { at = λ w p. (e, refl, p) }

  pub Stops-now : {k : ℕ → Session D B} → ((at : ℕ) → Stops d (k at)) → Stops d (now >>= k)
  unfolding ◌>>=◌
  Stops-now h = record { at = λ w p. (h w.clock).at w p }

module _ {D A B : Type 0} {d : D} where
  -- A first part that keeps the tables and answers what makes the rest stop.
  pub Stops-bind :
      {R : A → D → Type 0} {m : Session D A} {f : A → Session D B}
      → From d m R
      → Keeps (λ x. x ≡ d) m
      → ((a : A) (d' : D) → R a d' → d' ≡ d → Stops d (f a))
      → Stops d (m >>= f)
  unfolding ◌>>=◌
  Stops-bind {R} {m} {f} hm hk hf = record { at = λ w e. go (m w) (hm.at w e) (hk.at w e) }
    where
      go :
          (r : Result A × World D)
          → Post R r
          → r.1.db ≡ d
          → (e : Error) × ((continue r.0 f r.1).0 ≡ err e) × ((continue r.0 f r.1).1.db ≡ d)
      go (ok a, w) h k = (hf a w.db h k).at w k
      go (err e, w) h k = (e, refl, k)
