-- ===== src/Tx/Nonce.antt =====
-- internal/tx/nonce.go: the nonces that the database hands out. The chain's pending nonce is an
-- argument, since `PendingNonceAt` is a call of the node.
pub mod Laws
use gin_demo.Prelude.{
  ℕ, suc, ◌%◌, ◌^◌, ltb, Option, none, some, List, [], ◌∷◌, if◌then◌else◌, find_first, update_where,
  any,
}
use gin_demo.Prelude.Text.{Text, text_eq, to_lower}
use gin_demo.Sql.{Result, ok, err, pure, ◌>>=◌, ◌>>◌, now, exec, query, in_tx}
use gin_demo.Schema.{Db, Action}
use gin_demo.Tx.Types.{WalletNonce}

abbrev pub next_of : Option WalletNonce → Option ℕ
next_of none = none
next_of (some n) = some n.next_nonce

abbrev pub stored_nonce : Text → Db → Option ℕ
stored_nonce addr db = next_of (find_first (λ n. text_eq n.address addr) db.tracker.nonces)

-- `INSERT INTO wallet_nonce`; the caller has seen that the key is free
abbrev pub add_nonce : Text → ℕ → ℕ → Db → Db
add_nonce addr next at db =
    let t = db.tracker in
    record db {
      tracker = record t {
        nonces = record { address = addr; next_nonce = next; updated_at = at } ∷ t.nonces;
      };
    }

-- `UPDATE wallet_nonce SET next_nonce = …`
abbrev pub set_nonce : Text → ℕ → ℕ → Db → Db
set_nonce addr next at db =
    let t = db.tracker in
    record db {
      tracker = record t {
        nonces =
            update_where (λ (n : WalletNonce). text_eq n.address addr)
              (λ n. record n { next_nonce = next; updated_at = at }) t.nonces;
      };
    }

-- the next nonce, a `uint64`
abbrev pub successor : ℕ → ℕ
successor n = suc n % 2 ^ 64

abbrev pub take_nonce : Text → Action ℕ → Option ℕ → Action ℕ
take_nonce addr on_chain none = do
  pending ← on_chain
  at ← now
  exec (λ db. ok (tt, add_nonce addr (successor pending) at db))
  pure pending
take_nonce addr on_chain (some next) = do
  at ← now
  exec (λ db. ok (tt, set_nonce addr (successor next) at db))
  pure next

-- `Allocate`
unfoldable pub allocate_tx : Text → Action ℕ → Action ℕ
allocate_tx addr on_chain = do
  next ← query (λ db. ok (stored_nonce addr db))
  take_nonce addr on_chain next

unfoldable pub allocate : Text → Action ℕ → Action ℕ
unfolding allocate_tx
allocate addr on_chain = in_tx (λ base. allocate_tx (to_lower addr) on_chain)

abbrev pub greatest : ℕ → ℕ → ℕ
greatest a b = if ltb a b then b else a

-- `INSERT … ON DUPLICATE KEY UPDATE next_nonce = GREATEST(next_nonce, VALUES(next_nonce))`
abbrev pub raised : Text → ℕ → ℕ → Db → Option ℕ → Db
raised addr pending at db none = add_nonce addr pending at db
raised addr pending at db (some next) = set_nonce addr (greatest next pending) at db

abbrev pub raise_nonce : Text → ℕ → ℕ → Db → Db
raise_nonce addr pending at db = raised addr pending at db (stored_nonce addr db)

-- `SyncFromChain`
unfoldable pub sync_from_chain : Text → Action ℕ → Action ℕ
sync_from_chain addr on_chain = do
  pending ← on_chain
  at ← now
  exec (λ db. ok (tt, raise_nonce (to_lower addr) pending at db))
  pure pending
