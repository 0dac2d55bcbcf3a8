-- ===== src/OrderService.antt =====
-- POST /v1/orders of order-service, which the checkout of the storefront calls
-- (services/order-service/internal/httpapi/api.go, internal/store/idempotency.go and
-- internal/orchestrator/place.go). Whether the transactions of the database commit is in `Env`, and a
-- commit whose error hides that it took effect is one of the cases.
pub mod Domain
pub mod Once
use ecomerce_microservices_o.Prelude.{
  ℕ, ◌+◌, Bool, true, false, ◌&&◌, not, ◌==◌, String, List, [], ◌∷◌, Option, none, some, ltb,
  if◌then◌else◌, str_eq, length,
}
use ecomerce_microservices_o.Prelude.Store.{update}
use ecomerce_microservices_o.Prelude.Codes.{codes}
use ecomerce_microservices_o.Prelude.Int.{ℤ, pos, ltb_ℤ}
use ecomerce_microservices_o.Money.{Money}
use ecomerce_microservices_o.OrderService.Domain.{
  Item, Address, valid_id, valid_address, money_eq, recompute_total,
}

-- placeOrderBody. A field that the request does not have is zero or empty.
pub record Body : Type 0 where
  pub cart_id : String
  pub cart_version : ℕ
  pub items : List Item
  pub subtotal : Money
  pub discount_total : Money
  pub shipping_total : Money
  pub tax_total : Money
  pub expected_total : Money
  pub shipping_address : Address
  pub billing_address : Option Address
  pub payment_method_token : String
  pub rules_version : String

-- The response that a completed key replays, of which the order's id and the status are kept.
pub record Replay : Type 0 where
  pub code : ℕ
  pub order_id : String

-- A row of `idempotency_keys`; `response` is null while it is IN_PROGRESS.
pub record KeyRow : Type 0 where
  pub user_id : String
  pub request_hash : String
  pub response : Option Replay
  pub expires_at : ℕ

pub record Order : Type 0 where
  pub id : String
  pub user_id : String
  pub idempotency_key : String

pub record Db : Type 0 where
  pub keys : String → Option KeyRow
  pub orders : List Order

-- The clock in milliseconds; `hash` is HashRequest, and `next_id` the id that is drawn. The first two
-- fields ending in `ok` say whether the transactions of ClaimKey and of the order end without an error,
-- and those in `landed` whether they took effect where the commit ended with one; the last two say
-- whether those of ReleaseKey and CompleteKey took effect, of which the handler ignores the error.
pub record Env : Type 0 where
  pub now : ℕ
  pub hash : Body → String
  pub claim_ok : Bool
  pub claim_landed : Bool
  pub insert_ok : Bool
  pub insert_landed : Bool
  pub release_ok : Bool
  pub complete_ok : Bool
  pub next_id : String

pub data Claim : Type 0 where
  fresh : Claim
  replayed : Replay → Claim
  key_reused : Claim
  in_progress : Claim

pub data Answer : Type 0 where
  accepted : String → Answer
  replay : Replay → Answer
  validation_failed : Answer
  unprocessable : Answer
  cart_stale : Answer
  idempotency_reuse : Answer
  request_in_progress : Answer
  internal : Answer

-- ClaimKey, on the row that the key has.
abbrev pub claim_of : Env → String → Body → Option KeyRow → Claim
claim_of env user body none = fresh
claim_of env user body (some row) =
    if not (str_eq row.user_id user && str_eq row.request_hash (env.hash body))
    then key_reused
    else elim row.response [ none ↦ in_progress | some r ↦ replayed r ]

-- The 24 hours that a key is kept, in milliseconds.
abbrev pub key_lifetime : ℕ
key_lifetime = 86400000

abbrev pub claimed : Env → String → String → Body → Db → Db
claimed env key user body db = record db {
  keys = update db.keys key (
      some (record {
        user_id = user;
        request_hash = env.hash body;
        response = none;
        expires_at = env.now + key_lifetime;
      }));
}

-- ReleaseKey: only a row that is in progress is deleted.
abbrev pub release_row : Option KeyRow → Option KeyRow
release_row none = none
release_row (some row) = elim row.response [ none ↦ none | some r ↦ some row ]

abbrev pub release_key : Env → String → Db → Db
release_key env key db =
    if env.release_ok
    then record db { keys = update db.keys key (release_row (db.keys key)) }
    else db

abbrev pub complete_row : Replay → Option KeyRow → Option KeyRow
complete_row r none = none
complete_row r (some row) = some (record row { response = some r })

abbrev pub complete_key : Env → String → Replay → Db → Db
complete_key env key r db =
    if env.complete_ok
    then record db { keys = update db.keys key (complete_row r (db.keys key)) }
    else db

abbrev pub is_empty : List Item → Bool
is_empty [] = true
is_empty (_ ∷ _) = false

abbrev pub valid_billing : Option Address → Bool
valid_billing none = true
valid_billing (some a) = valid_address a

abbrev pub valid_item : Item → Bool
valid_item it =
    valid_id (codes "sku_") it.sku
    && valid_id (codes "prd_") it.product_id
    && not (ltb_ℤ it.quantity (pos 1))
    && not (ltb_ℤ (pos 999) it.quantity)
    && not (ltb_ℤ it.unit_price.amount (pos 0))

unfoldable pub valid_items : List Item → Bool
valid_items [] = true
valid_items (it ∷ items) = valid_item it && valid_items items

-- Validate
unfoldable pub validate : String → String → Body → Bool
validate key user body =
    not (str_eq user "")
    && not (is_empty body.items)
    && not (ltb 100 (length body.items))
    && not (str_eq body.payment_method_token "")
    && not (str_eq body.rules_version "")
    && not (str_eq key "")
    && valid_address body.shipping_address
    && valid_billing body.billing_address
    && valid_items body.items

pub data Placed : Type 0 where
  placed : Order → Placed
  invalid_order : Placed
  total_mismatch : Placed
  failed : Option Order → Placed

-- The transaction that inserts the order; a failed one may have made it all the same.
abbrev pub insert_order : Env → String → String → Placed
insert_order env key user =
    let order : Order = record { id = env.next_id; user_id = user; idempotency_key = key } in
    if env.insert_ok then placed order else failed (if env.insert_landed then some order else none)

-- RecomputeTotal, of the body's parts
abbrev pub total_of : Body → Option Money
total_of body =
    recompute_total body.subtotal (body.discount_total ∷ body.shipping_total ∷ body.tax_total ∷ [])
      body.items

-- PlaceOrder
unfoldable pub place : Env → String → String → Body → Placed
place env key user body =
    if validate key user body
    then elim (total_of body) [
      | none ↦ invalid_order
      | some total ↦
          if money_eq total body.expected_total then insert_order env key user else total_mismatch
    ]
    else invalid_order

abbrev pub refused : Placed → Answer
refused (placed order) = accepted order.id
refused invalid_order = unprocessable
refused total_mismatch = cart_stale
refused (failed made) = internal

abbrev pub made_of : Placed → Db → Db
made_of (failed (some order)) db = record db { orders = order ∷ db.orders }
made_of p db = db

-- What placeOrder does once the key is its own.
abbrev pub finish : Env → String → Placed → Db → Answer × Db
finish env key (placed order) db = (
  accepted order.id,
  complete_key env key (record { code = 202; order_id = order.id })
      (record db { orders = order ∷ db.orders }),
)
finish env key p db = (refused p, release_key env key (made_of p db))

abbrev pub answer_claim : Env → String → String → Body → Claim → Db → Answer × Db
answer_claim env key user body fresh db =
    if env.claim_ok
    then finish env key (place env key user body) (claimed env key user body db)
    else (internal, if env.claim_landed then claimed env key user body db else db)
answer_claim env key user body (replayed r) db = (if env.claim_ok then replay r else internal, db)
answer_claim env key user body key_reused db = (idempotency_reuse, db)
answer_claim env key user body in_progress db = (request_in_progress, db)

-- placeOrder, for a user that is signed in and a body that the decoder takes
unfoldable pub place_order : Env → String → String → Body → Db → Answer × Db
place_order env key user body db =
    if str_eq key ""
    then (validation_failed, db)
    else answer_claim env key user body (claim_of env user body (db.keys key)) db

-- PurgeExpiredKeys, which the janitor calls
abbrev pub purge_row : ℕ → Option KeyRow → Option KeyRow
purge_row now none = none
purge_row now (some row) = if ltb row.expires_at now then none else some row

unfoldable pub purge_expired_keys : ℕ → Db → Db
purge_expired_keys now db = record db { keys = λ key. purge_row now (db.keys key) }
