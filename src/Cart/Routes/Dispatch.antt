-- ===== src/Cart/Routes/Dispatch.antt =====
-- The routes under /v1/carts, one function each, and the choice between them
-- (services/cart-service/src/index.ts).
use ecomerce_microservices_o.Prelude.{
  ℕ, Bool, true, ◌&&◌, String, List, [], ◌∷◌, Option, none, some, ◌==◌, leb, if◌then◌else◌, str_eq,
  length,
}
use ecomerce_microservices_o.Prelude.Codes.{codes}
use ecomerce_microservices_o.Cart.Types.{Code}
use ecomerce_microservices_o.Cart.Redis.{Redis}
use ecomerce_microservices_o.Cart.Service.{Env, create, add_line, update_line, apply_coupon, merge}
use ecomerce_microservices_o.Cart.Service
use ecomerce_microservices_o.Bff.Call.{get, post, put, patch, delete}
use ecomerce_microservices_o.Cart.Routes.{
  Body, missing, malformed, fields, HttpRequest, Reply, is_cart_id, is_sku, add_body, update_body,
  coupon_body, invalid, no_route, answered, answered_get,
}

abbrev pub all_upper : List ℕ → Bool
all_upper [] = true
all_upper (c ∷ cs) = leb b'A' c && leb c b'Z' && all_upper cs

-- /^[A-Z]{n}$/ with a default
abbrev pub upper_or : ℕ → String → Option String → Option String
upper_or n d none = some d
upper_or n d (some s) = if length (codes s) == n && all_upper (codes s) then some s else none

abbrev create_fields : Option String → Option String → Option (String × String)
create_fields (some currency) (some country_code) = some (currency, country_code)
create_fields _ _ = none

-- The body of POST /v1/carts, where no body is an empty object.
unfoldable pub create_body : Body → Option (String × String)
create_body missing = some ("EGP", "EG")
create_body malformed = none
create_body (fields f) =
    create_fields (upper_or 3 "EGP" f.currency) (upper_or 2 "EG" f.country_code)

-- The body of POST /v1/carts/:cartId/merge
unfoldable pub merge_body : Body → Option String
merge_body (fields f) = f.user_id
merge_body _ = none

module _ (env : Env) where
  abbrev pub create_with : Option String → Option (String × String) → Redis → Reply × Redis
  create_with user none r = invalid r
  create_with user (some (currency, country_code)) r =
      answered 201 (create env user currency country_code r)

  abbrev pub add_with : String → Option (String × ℕ × ℕ) → Redis → Reply × Redis
  add_with cart_id none r = invalid r
  add_with cart_id (some (sku, quantity, version)) r =
      answered 200 (add_line env cart_id sku quantity version r)

  abbrev pub update_with : String → String → Option (ℕ × ℕ) → Redis → Reply × Redis
  update_with cart_id sku none r = invalid r
  update_with cart_id sku (some (quantity, version)) r =
      answered 200 (update_line env cart_id sku quantity version r)

  abbrev pub coupon_with : String → Option (Code × ℕ) → Redis → Reply × Redis
  coupon_with cart_id none r = invalid r
  coupon_with cart_id (some (code, version)) r =
      answered 200 (apply_coupon env cart_id code version r)

  abbrev pub merge_with : String → Option String → Redis → Reply × Redis
  merge_with cart_id none r = invalid r
  merge_with cart_id (some user_id) r = answered 200 (merge env cart_id user_id r)

  -- The `CartId` of the path is parsed first.
  abbrev pub for_cart : String → (Redis → Reply × Redis) → Redis → Reply × Redis
  for_cart cart_id handler r = if is_cart_id cart_id then handler r else invalid r

  abbrev pub patch_line : String → String → Body → Redis → Reply × Redis
  patch_line cart_id sku body r =
      if is_cart_id cart_id && is_sku sku
      then update_with cart_id sku (update_body body) r
      else invalid r

  abbrev pub post_to_cart : String → String → Body → Redis → Reply × Redis
  post_to_cart cart_id action body =
      if str_eq action "lines"
      then for_cart cart_id (add_with cart_id (add_body body))
      else if str_eq action "coupons"
      then for_cart cart_id (coupon_with cart_id (coupon_body body))
      else if str_eq action "merge"
      then for_cart cart_id (merge_with cart_id (merge_body body))
      else no_route

  abbrev pub post_route : Option String → Body → List String → Redis → Reply × Redis
  post_route user body [] = create_with user (create_body body)
  post_route user body (cart_id ∷ action ∷ []) = post_to_cart cart_id action body
  post_route user body _ = no_route

  abbrev pub get_route : List String → Redis → Reply × Redis
  get_route (cart_id ∷ []) = for_cart cart_id (λ r. answered_get (Service.get env cart_id r))
  get_route _ = no_route

  abbrev pub patch_route : Body → List String → Redis → Reply × Redis
  patch_route body (cart_id ∷ action ∷ sku ∷ []) =
      if str_eq action "lines" then patch_line cart_id sku body else no_route
  patch_route body _ = no_route

  unfoldable pub dispatch : HttpRequest → Redis → Reply × Redis
  dispatch q = elim q.method [
    | get ↦ get_route q.segments
    | post ↦ post_route q.user q.body q.segments
    | patch ↦ patch_route q.body q.segments
    | put ↦ no_route
    | delete ↦ no_route
  ]
