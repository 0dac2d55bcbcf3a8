-- ===== src/Tests/Baskets.antt =====
-- The basket of the storefront and its requests at concrete data
-- (apps/storefront/src/components/cart/cart-provider.tsx and app/api/bff/cart).
use ecomerce_microservices_o.Prelude.{◌≡◌, refl, false, String, [], ◌∷◌, none, some}
use ecomerce_microservices_o.Basket.{Cart, State, changed, rejected, begin_mutation, end_mutation}
use ecomerce_microservices_o.Basket.Latest.{
  here, then_step, started, initial, has_ticket, initial-reaches, none_more, late_end, last_wins,
}
use ecomerce_microservices_o.Cart.Types.{StoredCart}
use ecomerce_microservices_o.Cart.Redis.{Redis, ran}
use ecomerce_microservices_o.Cart.Service.{Env}
use ecomerce_microservices_o.Cart.Routes.{problem, is_id}
use ecomerce_microservices_o.Cart.Routes.Dispatch.{dispatch}
use ecomerce_microservices_o.Cart.Routes.Storefront.{
  IsRefused, add_request, coupon_request, update_request, storefront-IsRefused,
}
use ecomerce_microservices_o.Cart.Routes.Stale.{update_request-stale}

abbrev basket : Cart
basket = record { version = 4; lines = ("a", 2) ∷ [] }

initial-reaches_example :
    let s = (begin_mutation (initial none)).1 in s.loading ≡ has_ticket s.in_flight s.pending
initial-reaches_example = initial-reaches none (begin_mutation (initial none)).1 (
    then_step (initial none) (initial none) (begin_mutation (initial none)).1 (here (initial none))
      (started (initial none)))

-- Two mutations; the second is answered first.
abbrev two_pending : State
two_pending = (begin_mutation (begin_mutation (initial none)).1).1

last_wins_example :
    let t =
      end_mutation 1 rejected (end_mutation two_pending.in_flight (changed basket) two_pending) in
    (t.cart ≡ some basket) × (t.loading ≡ false)
unfolding has_ticket begin_mutation end_mutation
last_wins_example =
    last_wins two_pending
      (end_mutation 1 rejected (end_mutation two_pending.in_flight (changed basket) two_pending))
      basket
      (late_end (end_mutation two_pending.in_flight (changed basket) two_pending)
        (end_mutation two_pending.in_flight (changed basket) two_pending) 1 rejected
        (none_more (end_mutation two_pending.in_flight (changed basket) two_pending)) refl
        (λ r h. cc h))

abbrev cart_id : String
cart_id = "crt_01J8Z3K9S2M4P6R8T0V2X4Y6A8"

abbrev sku : String
sku = "sku_01J8Z3K9S2M4P6R8T0V2X4Y6A8"

abbrev stored : StoredCart
stored = record {
  id = cart_id;
  user_id = none;
  lines = [];
  currency = "EGP";
  coupons = [];
  country_code = "EG";
  created_at = 0;
  updated_at = 0;
}

abbrev redis : Redis
redis = record {
  carts = λ k. some (record { cart = stored; version = 3; ttl = 60 });
  user_index = λ _. none;
  cas_sha = false;
}

abbrev env : Env
env = record {
  now = 1;
  fresh_id = "crt_2";
  get_variant = λ _. none;
  get_variants = λ _. [];
  calculate = λ _. none;
  between = λ r. r;
  replies = ran ∷ [];
}

storefront-IsRefused_example :
    IsRefused redis (dispatch env (add_request none (some cart_id) sku 1) redis)
    × IsRefused redis (dispatch env (coupon_request none (some cart_id) (65 ∷ [])) redis)
storefront-IsRefused_example = storefront-IsRefused env none (some cart_id) sku 1 (65 ∷ []) redis

update_request-stale_example :
    dispatch env (update_request none (some cart_id) sku 2 1) redis
    ≡ (problem 409 "CART_STALE", redis)
unfolding is_id
update_request-stale_example =
    update_request-stale env cart_id sku 2 1 redis (record { cart = stored; version = 3; ttl = 60 })
      refl refl refl refl refl
