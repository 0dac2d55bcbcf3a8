-- ===== src/Cart/Routes/Stale.antt =====
-- A change of a quantity from the storefront, through cart-service
-- (apps/storefront/src/app/api/bff/cart/lines/[sku], services/cart-service/src/index.ts and cart.ts).
use ecomerce_microservices_o.Prelude.{ℕ, ◌≡◌, refl, true, false, String, none, some, ◌==◌, leb}
use ecomerce_microservices_o.Prelude.Int.{pos}
use ecomerce_microservices_o.Cart.Redis.{Redis, Entry, load, err, cart_stale}
use ecomerce_microservices_o.Cart.Service.{Env, load_expecting, update_line}
use ecomerce_microservices_o.Cart.Routes.{
  is_cart_id, is_sku, problem, on_error, update_body, answered,
}
use ecomerce_microservices_o.Cart.Routes.Dispatch.{dispatch}
use ecomerce_microservices_o.Cart.Routes.Storefront.{update_request}

-- A guest's request with ids of the right form and a quantity in range is `updateLine`.
update_request-eq :
    (env : Env) (cart_id sku : String) (quantity version : ℕ) (r : Redis)
    → is_cart_id cart_id ≡ true
    → is_sku sku ≡ true
    → leb quantity 99 ≡ true
    → dispatch env (update_request none (some cart_id) sku quantity version) r
      ≡ answered 200 (update_line env cart_id sku quantity version r)
unfolding dispatch update_request update_body
update_request-eq env cart_id sku quantity version r cart_ok sku_ok few =
    rw cart_ok (rw sku_ok (rw few refl))

update_line-stale :
    (env : Env) (cart_id sku : String) (quantity version : ℕ) (r : Redis) (e : Entry)
    → r.carts cart_id ≡ some e
    → (e.version == version) ≡ false
    → update_line env cart_id sku quantity version r ≡ (err (cart_stale version (pos e.version)), r)
unfolding update_line load_expecting load
update_line-stale env cart_id sku quantity version r e found other = rw found (rw other refl)

-- A guest's change of a quantity, with ids of the right form and a quantity up to 99, whose version
-- is not that of the stored cart, is answered 409 with CART_STALE by cart-service and leaves Redis
-- as it was.
pub update_request-stale :
    (env : Env) (cart_id sku : String) (quantity version : ℕ) (r : Redis) (e : Entry)
    → is_cart_id cart_id ≡ true
    → is_sku sku ≡ true
    → leb quantity 99 ≡ true
    → r.carts cart_id ≡ some e
    → (e.version == version) ≡ false
    → dispatch env (update_request none (some cart_id) sku quantity version) r
      ≡ (problem 409 "CART_STALE", r)
unfolding on_error
update_request-stale env cart_id sku quantity version r e cart_ok sku_ok few found other =
    rw (update_request-eq env cart_id sku quantity version r cart_ok sku_ok few)
      (rw (update_line-stale env cart_id sku quantity version r e found other) refl)
