-- ===== src/Checkout/Refused.antt =====
-- What order-service answers to the checkout of the storefront
-- (apps/storefront/src/components/checkout/checkout-flow.tsx, app/api/bff/orders/route.ts and
-- services/order-service/internal/orchestrator/place.go).
use ecomerce_microservices_o.Prelude.{
  ◌≡◌, refl, String, Option, none, some, Bool-cases, inl, inr, str_eq, false, true,
}
use ecomerce_microservices_o.OrderService.{
  Body, Db, Env, unprocessable, place_order, place, validate, answer_claim, claim_of, finish,
  invalid_order, fresh, Claim, claimed, key_reused, replayed, in_progress,
}
use ecomerce_microservices_o.Checkout.{CreateOrderRequest, decoded, relay_for, relayed, post_order}

place-no_items :
    (env : Env) (key user : String) (r : CreateOrderRequest)
    → place env key user (decoded r) ≡ invalid_order
unfolding place validate
place-no_items env key user r = elim (Bool-cases (str_eq user "")) [
  | inl nobody ↦ rw nobody refl
  | inr someone ↦ rw someone refl
]

finish_invalid :
    (env : Env) (key user : String) (body : Body) (db : Db)
    → (finish env key invalid_order (claimed env key user body db)).1.orders ≡ db.orders
finish_invalid env key user body db = elim (Bool-cases env.release_ok) [
  | inl ok ↦ rw ok refl
  | inr lost ↦ rw lost refl
]

answer_claim-orders :
    (env : Env) (key user : String) (r : CreateOrderRequest) (c : Claim) (db : Db)
    → (answer_claim env key user (decoded r) c db).1.orders ≡ db.orders
answer_claim-orders env key user r fresh db =
    rw (place-no_items env key user r) (elim (Bool-cases env.claim_ok) [
      | inl ok ↦ rw ok (finish_invalid (record env { claim_ok = true }) key user (decoded r) db)
      | inr lost ↦ rw lost (elim (Bool-cases env.claim_landed) [
        | inl landed ↦ rw landed refl
        | inr aborted ↦ rw aborted refl
      ])
    ])
answer_claim-orders env key user r (replayed x) db = refl
answer_claim-orders env key user r key_reused db = refl
answer_claim-orders env key user r in_progress db = refl

post_order-orders :
    (env : Env) (key user : Option String) (body : Option CreateOrderRequest) (db : Db)
    → (post_order env key user body db).1.orders ≡ db.orders
unfolding post_order place_order
post_order-orders env none user body db = refl
post_order-orders env (some key) user body db = elim (Bool-cases (str_eq key "")) [
  | inl missing ↦ rw missing refl
  | inr given ↦ rw given (by_user given user body)
]
  where
    by_user :
        str_eq key "" ≡ false
        → (user : Option String) (body : Option CreateOrderRequest)
        → (relay_for env key user body db).1.orders ≡ db.orders
    by_user given none body = refl
    by_user given (some u) none = refl
    by_user given (some u) (some r) =
        rw given (answer_claim-orders env key u r (claim_of env u (decoded r) (db.keys key)) db)

-- No order is made of what the checkout of the storefront posts, whatever it is answered; and where the
-- user is signed in, the body is parsed, and the key is new and can be claimed, the answer is the 422
-- of order-service, as the request has no items.
pub post_order-refused :
    (env : Env) (key user : String) (r : CreateOrderRequest) (db : Db)
    → str_eq key "" ≡ false
    → db.keys key ≡ none
    → env.claim_ok ≡ true
    → ((post_order env (some key) (some user) (some r) db).0 ≡ relayed unprocessable)
      × ((k u : Option String) (b : Option CreateOrderRequest)
          → (post_order env k u b db).1.orders ≡ db.orders)
unfolding post_order place_order
post_order-refused env key user r db given free ok = (
  rw given (rw free (rw (place-no_items env key user r) (rw ok refl))),
  λ k u b. post_order-orders env k u b db,
)
