-- ===== src/OrderService/Once.antt =====
-- One order for an idempotency key (services/order-service/internal/httpapi/api.go and
-- internal/store/idempotency.go).
pub mod Keys
use ecomerce_microservices_o.Prelude.{
  ℕ, suc, ◌+◌, ◌≤◌, ◌≢◌, ◌⊎◌, All, ◌≡◌, refl, sym, ◌∙◌, ap, true, false, String, List, [], ◌∷◌,
  Option, none, some, inl, inr, arith, Bool-cases, Option-cases, if◌then◌else◌, str_eq, str_eq_self,
  str_eq_ne, str_ne, eq_iff, ◌&&◌, not,
}
use mathlib.Core.Path.{subst}
use ecomerce_microservices_o.OrderService.Domain.{money_eq}
use ecomerce_microservices_o.OrderService.{
  Body, Order, KeyRow, Replay, Db, Env, in_progress, replayed, validate, total_of, insert_order,
  claim_of, claimed, Placed, placed, invalid_order, total_mismatch, failed, finish, answer_claim,
  place_order, place, complete_key, release_key, key_lifetime, purge_row, purge_expired_keys,
}
use ecomerce_microservices_o.OrderService.Once.Keys.{
  orders_of, IsKept, IsOnce, same_orders, finish-IsOnce, claimed-IsOnce,
}

insert_order-key :
    (env : Env) (key user : String) (o : Order)
    → insert_order env key user ≡ placed o
    → o.idempotency_key ≡ key
insert_order-key env key user o e = ground (arith)

-- An order is made under the key of its request.
place-key :
    (env : Env) (key user : String) (body : Body) (o : Order)
    → place env key user body ≡ placed o
    → o.idempotency_key ≡ key
unfolding place
place-key env key user body o e = elim (Bool-cases (validate key user body)) [
  | inl valid ↦ elim (Option-cases (total_of body)) [
    | inl unknown ↦ absurd (cc (rw (valid, unknown) at e))
    | inr (total, is) ↦ elim (Bool-cases (money_eq total body.expected_total)) [
      | inl same ↦ insert_order-key env key user o (rw (valid, is, same) at e)
      | inr other ↦ absurd (cc (rw (valid, is, other) at e))
    ]
  ]
  | inr invalid ↦ absurd (cc (rw invalid at e))
]

-- A commit of an order that ends with an error did not take effect.
abbrev pub IsKnown : Env → Type 0
IsKnown env = env.insert_ok ≡ false → env.insert_landed ≡ false

insert_order-known :
    (env : Env) (key user : String) (o : Order)
    → IsKnown env
    → insert_order env key user ≢ failed (some o)
insert_order-known env key user o known e = elim (Bool-cases env.insert_ok) [
  | inl ok ↦ cc (rw ok at e)
  | inr lost ↦ cc (rw (lost, known lost) at e)
]

-- An order that fails to be placed was not made.
place-known :
    (env : Env) (key user : String) (body : Body) (o : Order)
    → IsKnown env
    → place env key user body ≢ failed (some o)
unfolding place
place-known env key user body o known e = elim (Bool-cases (validate key user body)) [
  | inl valid ↦ elim (Option-cases (total_of body)) [
    | inl unknown ↦ cc (rw (valid, unknown) at e)
    | inr (total, is) ↦ elim (Bool-cases (money_eq total body.expected_total)) [
      | inl same ↦ insert_order-known env key user o known (rw (valid, is, same) at e)
      | inr other ↦ cc (rw (valid, is, other) at e)
    ]
  ]
  | inr invalid ↦ cc (rw invalid at e)
]

module _ (start : ℕ) (key : String) where
  answer_claim-IsOnce :
      (env : Env) (mine user : String) (body : Body) (db : Db)
      → start ≤ env.now
      → IsKnown env
      → IsOnce start key db
      → (row : Option KeyRow) → db.keys mine ≡ row
      → IsOnce start key (answer_claim env mine user body (claim_of env user body row) db).1
  unfolding place validate
  answer_claim-IsOnce env mine user body db late known h none free =
      elim (Bool-cases env.claim_ok) [
        | inl ok ↦ rw ok (
            finish-IsOnce start key env mine user body (place env mine user body) db late
              (place-key env mine user body) (λ o. place-known env mine user body o known) free h)
        | inr lost ↦ rw lost (elim (Bool-cases env.claim_landed) [
          | inl landed ↦ rw landed (claimed-IsOnce start key env mine user body db free h)
          | inr aborted ↦ rw aborted h
        ])
      ]
  answer_claim-IsOnce env mine user body db late known h (some row) held =
      elim (Bool-cases (not (str_eq row.user_id user && str_eq row.request_hash (env.hash body)))) [
        | inl reused ↦ rw reused h
        | inr own ↦ rw own (by_response row.response)
      ]
    where
      by_response :
          (r : Option Replay)
          → IsOnce start key
              (answer_claim env mine user body
                (elim r [ none ↦ in_progress | some x ↦ replayed x ])
                db).1
      by_response none = h
      by_response (some x) = h

  place_order-IsOnce :
      (env : Env) (mine user : String) (body : Body) (db : Db)
      → start ≤ env.now
      → IsKnown env
      → IsOnce start key db
      → IsOnce start key (place_order env mine user body db).1
  unfolding place_order
  place_order-IsOnce env mine user body db late known h = elim (Bool-cases (str_eq mine "")) [
    | inl missing ↦ rw missing h
    | inr given ↦
        rw given (answer_claim-IsOnce env mine user body db late known h (db.keys mine) refl)
  ]

  purge_row-IsKept :
      (at : ℕ) (row : Option KeyRow)
      → at ≤ start + key_lifetime
      → IsKept start row
      → IsKept start (purge_row at row)
  purge_row-IsKept at none early here = here
  purge_row-IsKept at (some row) early here = ground arith

-- What happens to the database: a request in its circumstances, or a purge at a time.
pub data Event : Type 0 where
  request : Env → String → String → Body → Event
  purge : ℕ → Event

unfoldable pub happen_all : List Event → Db → Db
happen_all [] db = db
happen_all (request env key user body ∷ es) db = happen_all es (place_order env key user body db).1
happen_all (purge at ∷ es) db = happen_all es (purge_expired_keys at db)

-- Within a day of the start, and without the error of a commit that took effect.
abbrev pub IsInDay : ℕ → Event → Type 0
IsInDay start (request env key user body) = (start ≤ env.now) × IsKnown env
IsInDay start (purge at) = at ≤ start + key_lifetime

happen_all-IsOnce :
    (start : ℕ) (key : String) (es : List Event) (db : Db)
    → All (IsInDay start) es
    → IsOnce start key db
    → IsOnce start key (happen_all es db)
unfolding happen_all purge_expired_keys
happen_all-IsOnce start key [] db in_day h = h
happen_all-IsOnce start key (request env mine user body ∷ es) db ((late, known), in_day) h =
    happen_all-IsOnce start key es (place_order env mine user body db).1 in_day
      (place_order-IsOnce start key env mine user body db late known h)
happen_all-IsOnce start key (purge at ∷ es) db (early, in_day) h =
    happen_all-IsOnce start key es (purge_expired_keys at db) in_day (
      same_orders start key db (purge_expired_keys at db) refl
        (purge_row-IsKept start key at (db.keys key) early) h)

-- Where no order stands under an idempotency key, at most one is made under it by whatever requests are
-- then handled one after the other and whatever purges of expired keys run between them, from a time on
-- and the purges up to 24 hours after it, whether the transactions commit or not, when no commit of an
-- order ends with an error and takes effect all the same.
pub happen_all-at_most_once :
    (start : ℕ) (key : String) (es : List Event) (db : Db)
    → All (IsInDay start) es
    → orders_of key db.orders ≡ 0
    → orders_of key (happen_all es db).orders ≤ 1
happen_all-at_most_once start key es db in_day none_yet =
    (happen_all-IsOnce start key es db in_day (omega arith, inl none_yet)).0
