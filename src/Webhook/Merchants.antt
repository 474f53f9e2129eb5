-- ===== src/Webhook/Merchants.antt =====
-- internal/webhook/store.go and service.go: merchants and their bindings to payers.
use gin_demo.Prelude.{
  ℕ, ltb, Bool, true, false, not, ◌&&◌, ◌||◌, List, [], ◌∷◌, ◌++◌, ◌==◌, if◌then◌else◌, find_first,
  select, take, update_where, any, sort_by,
}
use gin_demo.Prelude.Text.{Text, text_eq, text_leb, codes, trim_space}
use gin_demo.Sql.{
  Result, ok, err, duplicate_binding, not_enabled, merchant_id_required, invalid_webhook_url,
  merchant_not_found, pure, fail, ◌>>=◌, ◌>>◌, now, guard, exec, query, attempt, first_row,
}
use gin_demo.Schema.{Db, Action}
use gin_demo.Webhook.Types.{Merchant, Binding}

abbrev same_merchant : Text → Merchant → Bool
same_merchant id m = text_eq m.merchant_id id

-- `ON DUPLICATE KEY UPDATE`: an empty secret leaves the stored one
abbrev merged : Merchant → Merchant → Merchant
merged new old = record new {
  secret = if text_eq new.secret [] then old.secret else new.secret;
  created_at = old.created_at;
}

abbrev upsert_row : Merchant → List Merchant → List Merchant
upsert_row new rows =
    if any (same_merchant new.merchant_id) rows
    then update_where (same_merchant new.merchant_id) (merged new) rows
    else new ∷ rows

-- `UpsertMerchant`: the two times of the row are set here
unfoldable pub upsert_merchant : Merchant → Action (Unit {0})
unfolding text_eq
upsert_merchant m = do
  at ← now
  exec (λ db.
      let t = db.webhook in
      ok (
        tt,
        record db {
          webhook = record t {
            merchants = upsert_row (record m { created_at = at; updated_at = at }) t.merchants;
          };
        },
      ))

-- `GetMerchant`: the secret is a field of the row
unfoldable pub get_merchant : Text → Action Merchant
get_merchant id = query (λ db. first_row (find_first (same_merchant id) db.webhook.merchants))

-- `ListMerchants`
unfoldable pub list_merchants : ℕ → Action (List Merchant)
list_merchants limit = query (λ db. ok (
    take (if limit == 0 || ltb 200 limit then 50 else limit)
      (sort_by (λ a b. text_leb a.merchant_id b.merchant_id) db.webhook.merchants)))

abbrev same_binding : Text → Text → Binding → Bool
same_binding merchant payer b = text_eq b.merchant_id merchant && text_eq b.payer_user_id payer

abbrev bind_row : Text → Text → ℕ → Db → Result (Unit {0} × Db)
bind_row merchant payer at db =
    let t = db.webhook in
    if any (same_binding merchant payer) t.bindings
    then err duplicate_binding
    else ok (
      tt,
      record db {
        webhook = record t {
          bindings =
              record { merchant_id = merchant; payer_user_id = payer; created_at = at }
              ∷ t.bindings;
        };
      },
    )

-- `Store.AddBinding`: the duplicate key is answered by an error of its own
unfoldable pub insert_binding : Text → Text → Action (Unit {0})
unfolding text_eq
insert_binding merchant payer = do at ← now; exec (bind_row merchant payer at)

-- `ListBindingsByPayer`
abbrev pub bindings_of : Text → Db → List Binding
bindings_of payer db = select (λ b. text_eq b.payer_user_id payer) db.webhook.bindings

-- `RegisterMerchantParams`
pub record RegisterMerchantParams : Type 0 where
  pub merchant_id : Text
  pub name : Text
  pub webhook_url : Text
  pub secret : Text
  pub ledger_user_id : Text
  pub enabled : Bool

abbrev merchant_of : RegisterMerchantParams → Text → Text → Merchant
merchant_of p id url = record {
  merchant_id = id;
  name = p.name;
  webhook_url = url;
  secret = if text_eq p.secret [] then codes "whsec-" ++ id else p.secret;
  ledger_user_id = trim_space p.ledger_user_id;
  enabled = p.enabled;
  created_at = 0;
  updated_at = 0;
}

-- `strings.HasPrefix`
abbrev pub has_prefix : Text → Text → Bool
has_prefix [] s = true
has_prefix (c ∷ p) [] = false
has_prefix (c ∷ p) (d ∷ s) = c == d && has_prefix p s

-- `RegisterMerchant`: `valid_url` is `url.ParseRequestURI` without an error
unfoldable pub register_merchant : (Text → Bool) → Bool → RegisterMerchantParams → Action Merchant
unfolding upsert_merchant
register_merchant valid_url enabled p = do
  guard enabled not_enabled
  let id = trim_space p.merchant_id
  let url = trim_space p.webhook_url
  guard (not (text_eq id [])) merchant_id_required
  guard (not (text_eq url [])) invalid_webhook_url
  guard (valid_url url || has_prefix (codes "mock://") url) invalid_webhook_url
  upsert_merchant (merchant_of p id url)
  get_merchant id

abbrev pub or_not_found : Result Merchant → Action Merchant
or_not_found (ok m) = pure m
or_not_found (err _) = fail merchant_not_found

-- `Service.AddBinding`
unfoldable pub add_binding : Bool → Text → Text → Action (Unit {0})
unfolding insert_binding
add_binding enabled merchant payer = do
  guard enabled not_enabled
  found ← attempt (get_merchant merchant)
  or_not_found found
  insert_binding merchant (trim_space payer)
