-- ===== src/Cache.antt =====
-- internal/cache/memory.go: the cache inside the process. A Go map is an association list, and the
-- time is passed in; every method runs under the lock, so each is one step and none fails.
pub mod Lock
use gin_demo.Prelude.{
  ℕ, ◌+◌, Bool, true, false, not, ◌&&◌, Option, none, some, List, [], ◌∷◌, ◌==◌, ltb, if◌then◌else◌,
  select,
}
use gin_demo.Prelude.Text.{Text, text_eq}

-- `memEntry`: without a time the entry never expires
pub record MemEntry : Type 0 where
  pub val : Text
  pub expires_at : Option ℕ

abbrev pub MemoryCache : Type 0
MemoryCache = List (Text × MemEntry)

abbrev pub new_memory_cache : MemoryCache
new_memory_cache = []

-- `!expiresAt.IsZero() && now.After(expiresAt)`
abbrev pub is_over : ℕ → Option ℕ → Bool
is_over now none = false
is_over now (some t) = ltb t now

-- `expiresAt.IsZero() || now.Before(expiresAt)`
abbrev pub holds_at : ℕ → Option ℕ → Bool
holds_at now none = true
holds_at now (some t) = ltb now t

unfoldable pub find : Text → MemoryCache → Option MemEntry
find key [] = none
find key ((k, e) ∷ table) = if text_eq k key then some e else find key table

unfoldable pub drop_key : Text → MemoryCache → MemoryCache
drop_key key table = select (λ entry. not (text_eq entry.0 key)) table

abbrev pub put : Text → MemEntry → MemoryCache → MemoryCache
put key e table = (key, e) ∷ drop_key key table

abbrev pub expiry : ℕ → ℕ → Option ℕ
expiry now ttl = if ltb 0 ttl then some (now + ttl) else none

-- `purgeLocked`
unfoldable pub purge : ℕ → MemoryCache → MemoryCache
purge now table = select (λ entry. not (is_over now entry.1.expires_at)) table

abbrev value_at : ℕ → Option MemEntry → Text
value_at now none = []
value_at now (some e) = if is_over now e.expires_at then [] else e.val

-- `Get`
unfoldable pub get : ℕ → Text → MemoryCache → Text
unfolding find
get now key table = value_at now (find key table)

-- `Set`
unfoldable pub set : ℕ → Text → Text → ℕ → MemoryCache → MemoryCache
unfolding drop_key
set now key val ttl table = put key (record { val = val; expires_at = expiry now ttl }) table

abbrev pub is_held : ℕ → Option MemEntry → Bool
is_held now none = false
is_held now (some e) = holds_at now e.expires_at

-- `SetNX`: whether the key was free
unfoldable pub set_nx : ℕ → Text → Text → ℕ → MemoryCache → Bool × MemoryCache
unfolding find drop_key purge
set_nx now key val ttl table =
    let live = purge now table in
    if is_held now (find key live)
    then (false, live)
    else (true, put key (record { val = val; expires_at = expiry now ttl }) live)

-- `Del`, of one key
unfoldable pub del : Text → MemoryCache → MemoryCache
unfolding drop_key
del key table = drop_key key table
