-- ===== src/Cache/Lock.antt =====
-- internal/cache/memory.go: `SetNX` and `Del` as a lock on one key.
use gin_demo.Prelude.{
  ℕ, ◌+◌, ◌<◌, ◌≡◌, refl, true, false, ltb, none, some, List, [], ◌∷◌, arith, All, ap, ◌∙◌,
  Bool-cases, inl, inr,
}
use gin_demo.Prelude.Text.{Text, text_eq, text_eq_refl, text_eq_iff}
use gin_demo.Cache.{
  MemoryCache, MemEntry, find, drop_key, purge, put, set, get, set_nx, del, is_held, is_over,
}

find-put : (key : Text) (e : MemEntry) (table : MemoryCache) → find key (put key e table) ≡ some e
unfolding find
find-put key e table = rw (text_eq_refl key) refl

pub find-drop_key : (key : Text) (table : MemoryCache) → find key (drop_key key table) ≡ none
unfolding find drop_key
find-drop_key key [] = refl
find-drop_key key (entry ∷ table) = elim (Bool-cases (text_eq entry.0 key)) [
  | inl hit ↦ rw hit (find-drop_key key table)
  | inr miss ↦ rw (miss, miss) (find-drop_key key table)
]

-- What `Set` stores is what `Get` answers, until the entry's time is over.
pub get-set :
    (now later ttl : ℕ) (key val : Text) (table : MemoryCache)
    → 0 < ttl
    → later < now + ttl
    → get later key (set now key val ttl table) ≡ val
unfolding get set find
get-set now later ttl key val table positive early = rw (text_eq_refl key) (ground arith)

find-purge :
    (now : ℕ) (key : Text) (table : MemoryCache)
    → find key table ≡ none
    → find key (purge now table) ≡ none
unfolding find purge
find-purge now key [] h = refl
find-purge now key (entry ∷ table) h = elim (Bool-cases (text_eq entry.0 key)) [
  | inl hit ↦ cc (rw hit at h)
  | inr miss ↦ elim (Bool-cases (is_over now entry.1.expires_at)) [
    | inl over ↦ rw over (find-purge now key table (rw miss at h))
    | inr live ↦ rw (live, miss) (find-purge now key table (rw miss at h))
  ]
]

-- The key has the value until the given time.
abbrev HeldUntil : ℕ → Text → Text → MemoryCache → Type 0
HeldUntil over key val table = find key table ≡ some (record { val = val; expires_at = some over })

find-live :
    (now over : ℕ) (key val : Text) (table : MemoryCache)
    → now < over
    → HeldUntil over key val table
    → HeldUntil over key val (purge now table)
unfolding find purge
find-live now over key val [] early h = cc
find-live now over key val (entry ∷ table) early h = elim (Bool-cases (text_eq entry.0 key)) [
  | inl hit ↦
      let kept : ltb over now ≡ false = ground arith in
      let here : some entry.1 ≡ some (record { val = val; expires_at = some over }) = rw hit at h in
      let same : entry.1 ≡ record { val = val; expires_at = some over } = cc in
      let lasts : is_over now entry.1.expires_at ≡ false =
        ap (λ (x : MemEntry). is_over now x.expires_at) same ∙ kept in
      rw (lasts, hit) here
  | inr miss ↦ elim (Bool-cases (is_over now entry.1.expires_at)) [
    | inl over_now ↦ rw over_now (find-live now over key val table early (rw miss at h))
    | inr live ↦ rw (live, miss) (find-live now over key val table early (rw miss at h))
  ]
]

find-other :
    (key other : Text) (table : MemoryCache)
    → text_eq other key ≡ false
    → find key (drop_key other table) ≡ find key table
unfolding find drop_key
find-other key other [] differ = refl
find-other key other (entry ∷ table) differ = elim (Bool-cases (text_eq entry.0 other)) [
  | inl hit ↦
      let same = (text_eq_iff entry.0 other).0 hit in
      let miss : text_eq entry.0 key ≡ false = ap (λ t. text_eq t key) same ∙ differ in
      rw (hit, miss) (find-other key other table differ)
  | inr kept ↦ elim (Bool-cases (text_eq entry.0 key)) [
    | inl here ↦ rw (kept, here) refl
    | inr there ↦ rw (kept, there) (find-other key other table differ)
  ]
]

-- another caller's `SetNX`
pub record Attempt : Type 0 where
  pub time : ℕ
  pub key : Text
  pub val : Text
  pub ttl : ℕ

unfoldable pub after_attempts : List Attempt → MemoryCache → MemoryCache
after_attempts [] table = table
after_attempts (a ∷ rest) table = after_attempts rest (set_nx a.time a.key a.val a.ttl table).1

held_refused :
    (over : ℕ) (key val val2 : Text) (now ttl : ℕ) (table : MemoryCache)
    → now < over
    → HeldUntil over key val table
    → (set_nx now key val2 ttl table).0 ≡ false
unfolding set_nx
held_refused over key val val2 now ttl table early h =
    let live = find-live now over key val table early h in
    let holds : ltb now over ≡ true = ground arith in rw (live, holds) refl

attempt_keeps :
    (over : ℕ) (key val : Text) (a : Attempt) (table : MemoryCache)
    → a.time < over
    → HeldUntil over key val table
    → HeldUntil over key val (set_nx a.time a.key a.val a.ttl table).1
unfolding set_nx
attempt_keeps over key val a table early h =
    let live = find-live a.time over key val table early h in
    elim (Bool-cases (text_eq a.key key)) [
      | inl same_key ↦
          let same = (text_eq_iff a.key key).0 same_key in
          let holds : ltb a.time over ≡ true = ground arith in rw (same, live, holds) live
      | inr differ ↦ elim (Bool-cases (is_held a.time (find a.key (purge a.time table)))) [
        | inl held ↦ rw held live
        | inr free ↦
            rw free
              (unfold find in rw differ (find-other key a.key (purge a.time table) differ ∙ live))
      ]
    ]

attempts_keep :
    (over : ℕ) (key val : Text) (attempts : List Attempt) (table : MemoryCache)
    → All (λ (a : Attempt). a.time < over) attempts
    → HeldUntil over key val table
    → HeldUntil over key val (after_attempts attempts table)
unfolding after_attempts
attempts_keep over key val [] table early h = h
attempts_keep over key val (a ∷ rest) table early h =
    attempts_keep over key val rest _ early.1 (attempt_keeps over key val a table early.0 h)

taken_until :
    (now ttl : ℕ) (key val : Text) (table : MemoryCache)
    → 0 < ttl
    → (set_nx now key val ttl table).0 ≡ true
    → HeldUntil (now + ttl) key val (set_nx now key val ttl table).1
unfolding set_nx find
taken_until now ttl key val table positive taken =
    elim (Bool-cases (is_held now (find key (purge now table)))) [
      | inl held ↦ cc (rw held at taken)
      | inr free ↦
          let lasts : ltb 0 ttl ≡ true = ground arith in rw (free, lasts, text_eq_refl key) refl
    ]

-- After a `SetNX` that has taken the key for a time, and before that time has passed: whatever
-- `SetNX` calls for this and other keys have come since, the next one for the key is refused, and the
-- key still has the holder's value.
pub set_nx-set_nx :
    (now later ttl ttl2 : ℕ) (key val val2 : Text) (attempts : List Attempt) (table : MemoryCache)
    → 0 < ttl
    → All (λ (a : Attempt). a.time < now + ttl) attempts
    → later < now + ttl
    → (set_nx now key val ttl table).0 ≡ true
    → ((set_nx later key val2 ttl2 (after_attempts attempts (set_nx now key val ttl table).1)).0
        ≡ false)
      × (get later key (after_attempts attempts (set_nx now key val ttl table).1) ≡ val)
unfolding get
set_nx-set_nx now later ttl ttl2 key val val2 attempts table positive between early taken =
    let held : HeldUntil (now + ttl) key val
        (after_attempts attempts (set_nx now key val ttl table).1) =
      attempts_keep (now + ttl) key val attempts _ between
        (taken_until now ttl key val table positive taken) in
    let lasts : ltb (now + ttl) later ≡ false = ground arith in
    (held_refused (now + ttl) key val val2 later ttl2 _ early held, rw (held, lasts) refl)

-- After `Del` the key is free for the next `SetNX`, whoever comes.
pub set_nx-del :
    (now ttl : ℕ) (key val : Text) (table : MemoryCache)
    → (set_nx now key val ttl (del key table)).0 ≡ true
unfolding set_nx del
set_nx-del now ttl key val table = rw (find-purge now key _ (find-drop_key key table)) refl
