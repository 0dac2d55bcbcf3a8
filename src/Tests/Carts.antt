-- ===== src/Tests/Carts.antt =====
-- Requests on stored carts (services/cart-service/src/cart.ts) at concrete data: one line of two
-- pieces, another client that writes an index in between, and pricing-engine out of reach.
use ecomerce_microservices_o.Prelude.{
  ℕ, ◌≡◌, refl, ap, Bool, ◌≢◌, ◌+◌, ◌*◌, ◌==◌, true, false, String, List, [], ◌∷◌, none, some,
  str_eq, if◌then◌else◌,
}
use ecomerce_microservices_o.Prelude.Int.{pos, ◌*ℤ◌, ◌+ℤ◌}
use ecomerce_microservices_o.Prelude.Codes.{codes}
use ecomerce_microservices_o.Money.{Money, zero_money, add_money, multiply_money}
use ecomerce_microservices_o.Cart.Types.{StoredLine, StoredCart, Variant, Cart, cart_ttl_seconds}
use ecomerce_microservices_o.Cart.Codes.{normalise, push_code, union_codes}
use ecomerce_microservices_o.Cart.Lines.{add_to_lines, update_lines, merge_lines}
use ecomerce_microservices_o.Cart.Redis.{
  Entry, Redis, Result, ok, err, redis_failed, cart_stale, no_script, cas, cas_script, set_index,
  load, ttl_for, get_index, del_cart,
}
use ecomerce_microservices_o.Cart.Redis.Versions.{Reach, Step, next_entry}
use ecomerce_microservices_o.Cart.Pricing.{price, degraded_cart, hydrate}
use ecomerce_microservices_o.Cart.Service.{
  Env, add_line, update_line, apply_coupon, new_line, with_lines, merge, merged_cart, commit,
  price_action, load_expecting, merge_loaded,
}
use ecomerce_microservices_o.Cart.Service.Atomic.{Replaced, add_line-Replaced, update_line-Replaced}
use ecomerce_microservices_o.Cart.Service.Merging.{merge_both}

abbrev egp : ℕ → Money
egp n = record { amount = pos n; currency = "EGP" }

abbrev mug : Variant
mug = record {
  sku = "mug";
  product_id = "p1";
  title = "Mug";
  image = none;
  price = egp 500;
  status = "ACTIVE";
  category_path = [];
  brand = none;
  attributes = [];
}

abbrev mug_line : StoredLine
mug_line = record {
  sku = "mug";
  product_id = "p1";
  quantity = 2;
  added_at_price = pos 450;
  added_at = 7;
}

abbrev stored_cart : StoredCart
stored_cart = record {
  id = "crt_1";
  user_id = some "u1";
  lines = mug_line ∷ [];
  currency = "EGP";
  coupons = [];
  country_code = "EG";
  created_at = 5;
  updated_at = 7;
}

abbrev entry : Entry
entry = record { cart = stored_cart; version = 4; ttl = 60 }

abbrev anon_entry : Entry
anon_entry = record {
  cart = record stored_cart {
    id = "crt_2";
    user_id = none;
    lines = record mug_line { quantity = 3 } ∷ [];
  };
  version = 1;
  ttl = 60;
}

abbrev redis : Redis
redis = record {
  carts = λ k.
      if str_eq k "crt_1" then some entry else (if str_eq k "crt_2" then some anon_entry else none);
  user_index = λ u. if str_eq u "u1" then some "crt_1" else none;
  cas_sha = false;
}

abbrev others : Redis → Redis
others r = (set_index "u2" "crt_9" r).1

abbrev env : Env
env = record {
  now = 1000;
  fresh_id = "crt_0";
  get_variant = λ _. some mug;
  get_variants = λ _. mug ∷ [];
  calculate = λ _. none;
  between = others;
  replies = no_script ∷ [];
}

others-Reach : Reach "crt_1" redis (others redis)
others-Reach = Reach.next Reach.here (Step.index redis "u2" "crt_9")

-- The answer to a request that leaves the cart with `q` pieces.
abbrev shown : ℕ → Cart
shown q = record {
  id = "crt_1";
  user_id = some "u1";
  lines =
      record {
        sku = "mug";
        product_id = "p1";
        title = "Mug";
        image = none;
        quantity = q;
        unit_price = egp 500;
        line_total = multiply_money (egp 500) q;
        price_changed = false;
      }
      ∷ [];
  subtotal = multiply_money (egp 500) q;
  discount_total = zero_money "EGP";
  shipping_total = zero_money "EGP";
  tax_total = zero_money "EGP";
  total = multiply_money (egp 500) q;
  applied_coupons = [];
  rejected_coupons = [];
  currency = "EGP";
  pricing_degraded = true;
  rules_version = none;
  version = pos 5;
  expires_at = 1000 + cart_ttl_seconds * 1000;
  updated_at = 1000;
}

add_line_run :
    add_line env "crt_1" "mug" 98 4 redis
    ≡ (ok (shown 99), (add_line env "crt_1" "mug" 98 4 redis).1)
unfolding add_line update_line apply_coupon load_expecting load commit cas cas_script price_action
    price ttl_for add_to_lines update_lines set_index hydrate degraded_cart add_money multiply_money
    zero_money push_code normalise ◌*ℤ◌ ◌+ℤ◌
add_line_run = refl

update_line_run :
    update_line env "crt_1" "mug" 7 4 redis
    ≡ (ok (shown 7), (update_line env "crt_1" "mug" 7 4 redis).1)
unfolding add_line update_line apply_coupon load_expecting load commit cas cas_script price_action
    price ttl_for add_to_lines update_lines set_index hydrate degraded_cart add_money multiply_money
    zero_money push_code normalise ◌*ℤ◌ ◌+ℤ◌
update_line_run = refl

apply_coupon_run :
    apply_coupon env "crt_1" (codes " ten ") 4 redis
    ≡ (ok (shown 2), (apply_coupon env "crt_1" (codes " ten ") 4 redis).1)
unfolding add_line update_line apply_coupon load_expecting load commit cas cas_script price_action
    price ttl_for add_to_lines update_lines set_index hydrate degraded_cart add_money multiply_money
    zero_money push_code normalise ◌*ℤ◌ ◌+ℤ◌
apply_coupon_run = refl

add_line_stale : (add_line env "crt_1" "mug" 98 3 redis).0 ≡ err (cart_stale 3 (pos 4))
unfolding add_line load_expecting load
add_line_stale = refl

normalise_run : normalise (codes "  ten\t") ≡ codes "TEN"
unfolding normalise
normalise_run = refl

add_line-Replaced_example :
    (product : Variant) × (env.get_variant "mug" ≡ some product)
    × (product.status ≡ "ACTIVE")
    × Replaced env "crt_1" 4
        (λ e cart.
          (lines : List StoredLine) × (add_to_lines (new_line env product "mug" 98) e.cart.lines
            ≡ some lines)
          × (cart ≡ with_lines env e.cart lines))
        redis
        (add_line env "crt_1" "mug" 98 4 redis).1
add_line-Replaced_example = add_line-Replaced env "crt_1" "mug" 98 4 redis others-Reach add_line_run

update_line-Replaced_example :
    Replaced env "crt_1" 4
      (λ e cart.
        (lines : List StoredLine) × (update_lines "mug" 7 e.cart.lines ≡ some lines)
        × (cart ≡ with_lines env e.cart lines))
      redis
      (update_line env "crt_1" "mug" 7 4 redis).1
update_line-Replaced_example =
    update_line-Replaced env "crt_1" "mug" 7 4 redis others-Reach update_line_run

abbrev has_cart : Result Cart → Bool
has_cart (ok c) = true
has_cart (err e) = false

merge_answered : (merge env "crt_2" "u1" redis).0 ≢ err redis_failed
unfolding merge merge_loaded load get_index del_cart union_codes merge_lines cas cas_script
    price_action price ttl_for set_index hydrate degraded_cart add_money multiply_money zero_money
    push_code ◌*ℤ◌ ◌+ℤ◌
merge_answered h = cc (ap has_cart h)

merge_self_answered : (merge env "crt_1" "u1" redis).0 ≢ err redis_failed
unfolding merge merge_loaded load get_index del_cart union_codes merge_lines cas cas_script
    price_action price ttl_for set_index hydrate degraded_cart add_money multiply_money zero_money
    push_code ◌*ℤ◌ ◌+ℤ◌
merge_self_answered h = cc (ap has_cart h)

crt_2_ne : ◌≢◌ {A = String} "crt_2" "crt_1"
crt_2_ne h = cc (ap (λ s. str_eq s "crt_2") h)

merge_both_example :
    ((merge env "crt_2" "u1" redis).1.carts "crt_2" ≡ none)
    × ((merge env "crt_2" "u1" redis).1.carts "crt_1"
        ≡ some (
            if entry.version == entry.version
            then next_entry (merged_cart env stored_cart anon_entry.cart) 4 cart_ttl_seconds
            else entry))
merge_both_example =
    merge_both env "crt_2" "u1" redis anon_entry entry entry crt_2_ne refl refl refl kept
      merge_answered
  where
    kept : (env.between redis).carts "crt_1" ≡ some entry
    kept = unfold set_index in refl
