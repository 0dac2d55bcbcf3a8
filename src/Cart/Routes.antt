-- ===== src/Cart/Routes.antt =====
-- The routes of cart-service and its error handler (services/cart-service/src/index.ts), with what
-- they parse (libs/ts-contracts/src/primitives.ts and api.ts).
pub mod Dispatch
pub mod Storefront
pub mod Stale
use ecomerce_microservices_o.Prelude.{
  ℕ, ◌≡◌, Bool, true, false, not, ◌&&◌, ◌||◌, String, List, [], ◌∷◌, Option, none, some, ◌==◌, leb,
  if◌then◌else◌, str_eq, length, drop,
}
use ecomerce_microservices_o.Prelude.Codes.{codes, starts_with}
use ecomerce_microservices_o.Cart.Types.{Code, Cart}
use ecomerce_microservices_o.Cart.Codes.{normalise}
use ecomerce_microservices_o.Cart.Redis.{
  Redis, CartError, cart_stale, cart_full, cart_not_found, product_not_found, product_not_available,
  line_not_found, currency_mismatch, redis_failed, Result, ok, err, Action,
}
use ecomerce_microservices_o.Bff.Call.{Method}

-- The fields of a JSON object that some schema names, and whether it has others. Numbers are whole
-- and not negative: every schema refuses the rest.
pub record Fields : Type 0 where
  pub sku : Option String
  pub quantity : Option ℕ
  pub version : Option ℕ
  pub code : Option Code
  pub user_id : Option String
  pub currency : Option String
  pub country_code : Option String
  pub has_others : Bool

abbrev pub no_fields : Fields
no_fields = record {
  sku = none;
  quantity = none;
  version = none;
  code = none;
  user_id = none;
  currency = none;
  country_code = none;
  has_others = false;
}

-- A body: none, an object whose fields have their types, or anything else.
pub data Body : Type 0 where
  missing malformed : Body
  fields : Fields → Body

-- A request, with the decoded segments of its path after /v1/carts and its user header.
pub record HttpRequest : Type 0 where
  pub method : Method
  pub segments : List String
  pub body : Body
  pub user : Option String

-- An answer: the status, the problem's code and the cart.
pub record Reply : Type 0 where
  pub status : ℕ
  pub code : Option String
  pub cart : Option Cart

-- [0-9A-HJKMNP-TV-Z]
unfoldable pub is_ulid_char : ℕ → Bool
is_ulid_char c =
    (leb b'0' c && leb c b'9')
    || (leb b'A' c && leb c b'H')
    || c == b'J'
    || c == b'K'
    || c == b'M'
    || c == b'N'
    || (leb b'P' c && leb c b'T')
    || (leb b'V' c && leb c b'Z')

abbrev pub all_ulid : List ℕ → Bool
all_ulid [] = true
all_ulid (c ∷ cs) = is_ulid_char c && all_ulid cs

-- prefixedId, for the prefix with its underscore
unfoldable pub is_id : String → String → Bool
unfolding is_ulid_char
is_id prefix s =
    let rest = drop 4 (codes s) in
    starts_with (codes s) (codes prefix) && length rest == 26 && all_ulid rest

abbrev pub is_cart_id : String → Bool
is_cart_id = is_id "crt_"

abbrev pub is_sku : String → Bool
is_sku = is_id "sku_"

abbrev pub absent : {A : Type 0} → Option A → Bool
absent none = true
absent (some _) = false

-- The keys that AddToCartRequest, UpdateCartLineRequest and ApplyCouponRequest do not know.
abbrev pub no_profile : Fields → Bool
no_profile f = absent f.user_id && absent f.currency && absent f.country_code && not f.has_others

abbrev add_fields : Fields → Option String → Option ℕ → Option ℕ → Option (String × ℕ × ℕ)
add_fields f (some sku) (some quantity) (some version) =
    if is_sku sku && leb 1 quantity && leb quantity 99 && absent f.code && no_profile f
    then some (sku, quantity, version)
    else none
add_fields f _ _ _ = none

-- AddToCartRequest.extend({ version })
unfoldable pub add_body : Body → Option (String × ℕ × ℕ)
unfolding is_id
add_body (fields f) = add_fields f f.sku f.quantity f.version
add_body _ = none

abbrev update_fields : Fields → Option ℕ → Option ℕ → Option (ℕ × ℕ)
update_fields f (some quantity) (some version) =
    if leb quantity 99 && absent f.sku && absent f.code && no_profile f
    then some (quantity, version)
    else none
update_fields f _ _ = none

-- UpdateCartLineRequest
unfoldable pub update_body : Body → Option (ℕ × ℕ)
update_body (fields f) = update_fields f f.quantity f.version
update_body _ = none

abbrev coupon_fields : Fields → Option Code → Option ℕ → Option (Code × ℕ)
coupon_fields f (some code) (some version) =
    if leb 1 (length code)
      && leb (length code) 50
      && absent f.sku
      && absent f.quantity
      && no_profile f
    then some (normalise code, version)
    else none
coupon_fields f _ _ = none

-- ApplyCouponRequest.extend({ version })
unfoldable pub coupon_body : Body → Option (Code × ℕ)
coupon_body (fields f) = coupon_fields f f.code f.version
coupon_body _ = none

abbrev pub problem : ℕ → String → Reply
problem status code = record { status = status; code = some code; cart = none }

-- The error handler
unfoldable pub on_error : CartError → Reply
on_error (cart_stale _ _) = problem 409 "CART_STALE"
on_error cart_full = problem 422 "VALIDATION_FAILED"
on_error cart_not_found = problem 404 "CART_NOT_FOUND"
on_error product_not_found = problem 404 "PRODUCT_NOT_FOUND"
on_error product_not_available = problem 409 "PRODUCT_NOT_FOUND"
on_error line_not_found = problem 404 "CART_NOT_FOUND"
on_error currency_mismatch = problem 500 "INTERNAL_ERROR"
on_error redis_failed = problem 500 "INTERNAL_ERROR"

-- What a ZodError is answered with, and a path without a route.
abbrev pub invalid : Redis → Reply × Redis
invalid r = (problem 422 "VALIDATION_FAILED", r)

abbrev pub no_route : Redis → Reply × Redis
no_route r = (record { status = 404; code = none; cart = none }, r)

abbrev pub answered : ℕ → Result Cart × Redis → Reply × Redis
answered status (ok cart, r) = (record { status = status; code = none; cart = some cart }, r)
answered status (err e, r) = (on_error e, r)

abbrev pub answered_get : Result (Option Cart) × Redis → Reply × Redis
answered_get (ok none, r) = (problem 404 "CART_NOT_FOUND", r)
answered_get (ok (some cart), r) = (record { status = 200; code = none; cart = some cart }, r)
answered_get (err e, r) = (on_error e, r)
