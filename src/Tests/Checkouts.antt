-- ===== src/Tests/Checkouts.antt =====
-- The checkout, the order service and the quantity control at concrete data
-- (apps/storefront/src/components/checkout and cart, services/order-service): a basket of one line.
use ecomerce_microservices_o.Prelude.{
  ℕ, arith, ◌+◌, ◌≡◌, ◌≤◌, refl, true, false, String, List, [], ◌∷◌, Option, none, some, All,
  length,
}
use ecomerce_microservices_o.Prelude.Codes.{codes, digits_from}
use ecomerce_microservices_o.Prelude.Int.{pos, ◌+ℤ◌, ◌*ℤ◌}
use ecomerce_microservices_o.Money.{Money}
use ecomerce_microservices_o.OrderService.Domain.{
  Item, valid_address, valid_id, all_id_chars, recompute_total, sum_lines, add, mul, wrap_int64,
  money_eq, add_all,
}
use ecomerce_microservices_o.OrderService.{
  Body, Db, Env, accepted, place_order, unprocessable, validate, valid_items, place,
}
use ecomerce_microservices_o.OrderService.Once
use ecomerce_microservices_o.OrderService.Once.Keys.{orders_of}
use ecomerce_microservices_o.OrderService.Once.{IsInDay, request, purge, happen_all-at_most_once}
use ecomerce_microservices_o.Checkout.{
  Address, Basket, State, decoded_address, CreateOrderRequest, mount, on_submit, on_answer, placed,
  can_submit, issues, request_of, relayed, post_order,
}
use ecomerce_microservices_o.Checkout.Attempts.{
  IsOfMount, in_flight, Reach, start, typed, submitted, answered, mount-reaches,
}
use ecomerce_microservices_o.Checkout.Refused.{post_order-refused}
use ecomerce_microservices_o.Quantity
use ecomerce_microservices_o.Quantity.{initial}
use ecomerce_microservices_o.Quantity.Bounds
use ecomerce_microservices_o.Quantity.Bounds.{Event, IsOffered, happen_all, adds-IsOffered}

abbrev pounds : ℕ → Money
pounds n = record { amount = pos n; currency = "EGP" }

abbrev item : Item
item = record {
  sku = "sku_00000000000000000000000001";
  product_id = "prd_00000000000000000000000001";
  quantity = pos 2;
  unit_price = pounds 500;
}

abbrev home : Address
home = record {
  recipient = codes "Mona";
  line1 = codes "1 Nile St";
  line2 = [];
  city = codes "Cairo";
  region = [];
  postal_code = codes "11511";
  country_code = codes "EG";
  phone = [];
}

abbrev order_body : Body
order_body = record {
  cart_id = "crt_1";
  cart_version = 3;
  items = item ∷ [];
  payment_method_token = "tok_test_visa";
  rules_version = "2026-01";
  subtotal = pounds 1000;
  discount_total = pounds 0;
  shipping_total = pounds 50;
  tax_total = pounds 0;
  expected_total = pounds 1050;
  shipping_address = decoded_address home;
  billing_address = none;
}

abbrev order_env : Env
order_env = record {
  now = 1000;
  hash = λ _. "h1";
  claim_ok = true;
  claim_landed = false;
  insert_ok = true;
  insert_landed = false;
  release_ok = true;
  complete_ok = false;
  next_id = "ord_1";
}

abbrev new_db : Db
new_db = record { keys = λ _. none; orders = [] }

order_run : (place_order order_env "k1" "u1" order_body new_db).0 ≡ accepted "ord_1"
unfolding place_order place validate valid_address valid_items valid_id all_id_chars recompute_total
    sum_lines add mul wrap_int64 money_eq ◌+ℤ◌ ◌*ℤ◌ add_all
order_run = refl

-- The response was not recorded under the key, the expired keys are purged, and the client asks again.
abbrev attempts : List Once.Event
attempts =
    request order_env "k1" "u1" order_body
    ∷ purge 86401000
    ∷ request (record order_env { now = 86401000 }) "k1" "u1" order_body
    ∷ []

attempts-IsInDay : All (IsInDay 1000) attempts
attempts-IsInDay = ((omega arith, λ e. refl), (omega arith, ((omega arith, λ e. refl), tt)))

no_order_yet : orders_of "k1" new_db.orders ≡ 0
unfolding orders_of
no_order_yet = refl

happen_all-at_most_once_example : orders_of "k1" (Once.happen_all attempts new_db).orders ≤ 1
happen_all-at_most_once_example =
    happen_all-at_most_once 1000 "k1" attempts new_db attempts-IsInDay no_order_yet

abbrev basket : Basket
basket = record { id = "crt_1"; version = 3; lines = "sku_1" ∷ []; total = pounds 1000 }

abbrev typed_in : State
typed_in = record (mount "k1" none) { address = home }

abbrev sent_once : State
sent_once = on_submit (some basket) typed_in

abbrev ended : State
ended = on_answer (placed "ord_1") sent_once

ended-Reach : Reach (mount "k1" none) 1 ended
unfolding can_submit on_submit issues mount
ended-Reach =
    answered (mount "k1" none) sent_once 0 (placed "ord_1")
      (submitted (mount "k1" none) typed_in 0 basket false
        (typed (mount "k1" none) (mount "k1" none) 0 home (start (mount "k1" none))) refl)
      refl

mount-reaches_example :
    All (IsOfMount "k1") ended.requests × (length ended.requests ≡ 1 + in_flight ended.submitting)
mount-reaches_example = mount-reaches "k1" none 1 ended ended-Reach

abbrev order_request : CreateOrderRequest
order_request = request_of basket home

post_order-refused_example :
    ((post_order order_env (some "k1") (some "u1") (some order_request) new_db).0
      ≡ relayed unprocessable)
    × ((k u : Option String) (b : Option CreateOrderRequest)
        → (post_order order_env k u b new_db).1.orders ≡ new_db.orders)
post_order-refused_example =
    post_order-refused order_env "k1" "u1" order_request new_db refl refl refl

abbrev digit : ℕ → List ℕ
digit n = (48 + n) ∷ []

-- "9" is typed with 3 in stock, and the item is added twice.
abbrev clicks : List Event
clicks =
    Bounds.typed false (codes "9")
    ∷ Bounds.committed false
    ∷ Bounds.asked false
    ∷ Bounds.minus false
    ∷ Bounds.asked false
    ∷ []

adds-IsOffered_example :
    All (IsOffered (some 3)) (happen_all digit (some 3) clicks (initial digit (some 3))).adds
adds-IsOffered_example = adds-IsOffered digit (some 3) clicks

clicks_run : (happen_all digit (some 3) clicks (initial digit (some 3))).adds ≡ 2 ∷ 3 ∷ []
unfolding happen_all Quantity.type_text Quantity.blur Quantity.click_add Quantity.click_minus
    Bounds.happen Quantity.can_attempt_purchase Quantity.decrease Quantity.commit Quantity.digits_of
    Quantity.max_of digits_from
clicks_run = refl
