-- ===== src/Cart/Routes/Storefront.antt =====
-- The routes of the storefront that change a basket (apps/storefront/src/app/api/bff/cart/lines,
-- lines/[sku] and coupons) and what cart-service answers them. The bodies are those that the routes'
-- own schemas let through.
use ecomerce_microservices_o.Prelude.{
  ℕ, ◌≡◌, refl, ◌⊎◌, inl, inr, String, List, [], ◌∷◌, Option, none, some, if◌then◌else◌, str_eq,
  Bool-cases,
}
use ecomerce_microservices_o.Cart.Types.{Code}
use ecomerce_microservices_o.Cart.Codes.{normalise}
use ecomerce_microservices_o.Cart.Redis.{Redis}
use ecomerce_microservices_o.Cart.Service.{Env}
use ecomerce_microservices_o.Bff.Call.{post, patch}
use ecomerce_microservices_o.Cart.Routes.{
  no_fields, fields, HttpRequest, Reply, is_cart_id, add_body, coupon_body, invalid,
}
use ecomerce_microservices_o.Cart.Routes.Dispatch.{dispatch, for_cart, post_route}

-- A token or a cookie that is empty is false.
abbrev pub truthy : Option String → Option String
truthy none = none
truthy (some s) = if str_eq s "" then none else some s

abbrev pub cart_segment : Option String → Option String → String
cart_segment (some token) cookie = "mine"
cart_segment none none = ""
cart_segment none (some cart_id) = cart_id

abbrev pub add_segments : Option String → Option String → List String
add_segments (some token) cookie = "mine" ∷ "lines" ∷ []
add_segments none (some cart_id) = cart_id ∷ "lines" ∷ []
add_segments none none = "lines" ∷ []

-- The request of POST /api/bff/cart/lines, for an access token, the cart's cookie and a body
-- `{ sku, quantity }`. Only the gateway sets the user header, so it is none.
unfoldable pub add_request : Option String → Option String → String → ℕ → HttpRequest
add_request token cookie sku quantity = record {
  method = post;
  segments = add_segments (truthy token) (truthy cookie);
  body = fields (record no_fields { sku = some sku; quantity = some quantity });
  user = none;
}

-- The request of PATCH /api/bff/cart/lines/[sku]
unfoldable pub update_request : Option String → Option String → String → ℕ → ℕ → HttpRequest
update_request token cookie sku quantity version = record {
  method = patch;
  segments = cart_segment (truthy token) cookie ∷ "lines" ∷ sku ∷ [];
  body = fields (record no_fields { quantity = some quantity; version = some version });
  user = none;
}

-- The request of POST /api/bff/cart/coupons, whose schema has already normalised the code
unfoldable pub coupon_request : Option String → Option String → Code → HttpRequest
coupon_request token cookie code = record {
  method = post;
  segments = cart_segment (truthy token) cookie ∷ "coupons" ∷ [];
  body = fields (record no_fields { code = some (normalise code) });
  user = none;
}

-- No cart, and Redis as it was.
abbrev pub IsRefused : Redis → Reply × Redis → Type 0
IsRefused r (reply, r') =
    ((reply.status ≡ 404) ⊎ (reply.status ≡ 422)) × (reply.cart ≡ none) × (r' ≡ r)

for_cart-IsRefused :
    (env : Env) (cart_id : String) (r : Redis) → IsRefused r (for_cart env cart_id invalid r)
for_cart-IsRefused env cart_id r = elim (Bool-cases (is_cart_id cart_id)) [
  | inl valid ↦ rw valid (inr refl, refl, refl)
  | inr other ↦ rw other (inr refl, refl, refl)
]

add_segments-IsRefused :
    (env : Env) (token cookie : Option String) (sku : String) (quantity : ℕ) (r : Redis)
    → let body = fields (record no_fields { sku = some sku; quantity = some quantity }) in
      IsRefused r (post_route env none body (add_segments token cookie) r)
unfolding add_body
add_segments-IsRefused env (some token) cookie sku quantity r = for_cart-IsRefused env "mine" r
add_segments-IsRefused env none (some cart_id) sku quantity r = for_cart-IsRefused env cart_id r
add_segments-IsRefused env none none sku quantity r = (inl refl, refl, refl)

-- Whatever the access token and the cart's cookie, the requests that the storefront sends to cart-
-- service to add a line or to apply a coupon are answered 404 or 422 without a cart, and leave Redis
-- as it was.
pub storefront-IsRefused :
    (env : Env) (token cookie : Option String) (sku : String) (quantity : ℕ) (code : Code)
    (r : Redis)
    → IsRefused r (dispatch env (add_request token cookie sku quantity) r)
      × IsRefused r (dispatch env (coupon_request token cookie code) r)
unfolding dispatch add_request coupon_request coupon_body
storefront-IsRefused env token cookie sku quantity code r = (
  add_segments-IsRefused env (truthy token) (truthy cookie) sku quantity r,
  for_cart-IsRefused env (cart_segment (truthy token) cookie) r,
)
