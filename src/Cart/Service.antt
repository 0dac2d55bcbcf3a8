-- ===== src/Cart/Service.antt =====
-- The operations of `CartService` (services/cart-service/src/cart.ts). Each is a load, a change of
-- the loaded cart and a compare-and-swap; `between` is what the other clients of Redis do while the
-- request runs between its load and its write.
pub mod Atomic
pub mod Merging
use ecomerce_microservices_o.Prelude.{
  ℕ, ◌≡◌, Bool, true, false, not, String, List, [], ◌∷◌, ◌++◌, Option, none, some, ◌==◌,
  if◌then◌else◌, str_eq,
}
use ecomerce_microservices_o.Prelude.Int.{ℤ, pos, negsuc, ℤ_eq}
use ecomerce_microservices_o.Money.{Money}
use ecomerce_microservices_o.Cart.Types.{
  Code, StoredLine, StoredCart, Variant, CalculateRequest, PricedCart, Cart, cart_ttl_seconds,
}
use ecomerce_microservices_o.Cart.Codes.{normalise, push_code, union_codes}
use ecomerce_microservices_o.Cart.Lines.{add_to_lines, update_lines, merge_lines}
use ecomerce_microservices_o.Cart.Redis.{
  Redis, CartError, cart_stale, cart_full, cart_not_found, product_not_found, product_not_available,
  line_not_found, currency_mismatch, Action, pure, or_throw, throw, throw_if, modify, ◌>>=◌, ◌>>◌,
  Reply, cas, load, ttl_for, get_index, set_index, del_cart,
}
use ecomerce_microservices_o.Cart.Pricing.{price}

-- What a request meets: the clock, the id that `ulid` draws, the catalogue, pricing-engine, the
-- other clients of Redis and the answers to its `evalsha` calls.
pub record Env : Type 0 where
  pub now : ℕ
  pub fresh_id : String
  pub get_variant : String → Option Variant
  pub get_variants : List String → List Variant
  pub calculate : CalculateRequest → Option PricedCart
  pub between : Redis → Redis
  pub replies : List Reply

module _ (env : Env) where
  open env use {now, fresh_id, get_variant, get_variants, calculate, between, replies}

  unfoldable pub price_action : StoredCart → ℤ → Action Cart
  price_action cart version =
      or_throw (price get_variants calculate now cart version) currency_mismatch

  unfoldable pub get : String → Action (Option Cart)
  get cart_id = do
    loaded ← load cart_id
    elim loaded [
      | none ↦ pure none
      | some (cart, version) ↦ do cart' ← price_action cart (pos version); pure (some cart')
    ]

  abbrev pub new_cart : Option String → String → String → StoredCart
  new_cart user_id currency country_code = record {
    id = fresh_id;
    user_id = user_id;
    lines = [];
    currency = currency;
    coupons = [];
    country_code = country_code;
    created_at = now;
    updated_at = now;
  }

  abbrev pub index_user : Option String → String → Action (Unit {0})
  index_user none k = pure tt
  index_user (some u) k = set_index u k

  unfoldable pub create : Option String → String → String → Action Cart
  create user_id currency country_code =
      let cart = new_cart user_id currency country_code in
      do
        cas replies cart.id 0 cart (ttl_for cart)
        index_user user_id cart.id
        price_action cart (pos 1)

  -- `const fresh = await this.load(cartId); throw new CartStale(version, fresh?.version ?? -1)`
  abbrev pub stale : String → ℕ → Action Cart
  stale cart_id version = do
    fresh ← load cart_id
    throw (cart_stale version (elim fresh [ none ↦ negsuc 0 | some (_, v) ↦ pos v ]))

  -- The end of each request on a cart: the swap, the check for -1 and the price.
  unfoldable pub commit : String → ℕ → StoredCart → Action Cart
  commit cart_id version cart = do
    modify between
    next ← cas replies cart_id version cart (ttl_for cart)
    if ℤ_eq next (negsuc 0) then stale cart_id version else price_action cart next

  -- The start of each request on a cart: the load and the check of the client's version.
  unfoldable pub load_expecting : String → ℕ → Action (StoredCart × ℕ)
  load_expecting cart_id expected = do
    loaded ← load cart_id
    (cart, version) ← or_throw loaded cart_not_found
    throw_if (not (version == expected)) (cart_stale expected (pos version))
    pure (cart, version)

  abbrev pub new_line : Variant → String → ℕ → StoredLine
  new_line product sku quantity = record {
    sku = sku;
    product_id = product.product_id;
    quantity = quantity;
    added_at_price = product.price.amount;
    added_at = now;
  }

  abbrev pub with_lines : StoredCart → List StoredLine → StoredCart
  with_lines cart lines = record cart { lines = lines; updated_at = now }

  unfoldable pub add_line : String → String → ℕ → ℕ → Action Cart
  add_line cart_id sku quantity expected = do
    (cart, version) ← load_expecting cart_id expected
    product ← or_throw (get_variant sku) product_not_found
    throw_if (not (str_eq product.status "ACTIVE")) product_not_available
    lines ← or_throw (add_to_lines (new_line product sku quantity) cart.lines) cart_full
    commit cart_id version (with_lines cart lines)

  unfoldable pub update_line : String → String → ℕ → ℕ → Action Cart
  update_line cart_id sku quantity expected = do
    (cart, version) ← load_expecting cart_id expected
    lines ← or_throw (update_lines sku quantity cart.lines) line_not_found
    commit cart_id version (with_lines cart lines)

  unfoldable pub apply_coupon : String → Code → ℕ → Action Cart
  apply_coupon cart_id code expected = do
    (cart, version) ← load_expecting cart_id expected
    commit cart_id version
        (record cart { coupons = push_code cart.coupons (normalise code); updated_at = now })

  abbrev pub merged_cart : StoredCart → StoredCart → StoredCart
  merged_cart existing anon = record existing {
    lines = merge_lines existing.lines anon.lines;
    coupons = union_codes [] (existing.coupons ++ anon.coupons);
    updated_at = now;
  }

  abbrev pub load_index : Option String → Action (Option (StoredCart × ℕ))
  load_index none = pure none
  load_index (some k) = load k

  -- `merge` does not look at the answer of its swap.
  unfoldable pub merge_loaded :
      String → String → Option (StoredCart × ℕ) → Option (StoredCart × ℕ) → Action Cart
  merge_loaded anon_id user_id none none = create (some user_id) "EGP" "EG"
  merge_loaded anon_id user_id (some (anon, version)) none =
      let cart = record anon { user_id = some user_id } in
      do
        modify between
        next ← cas replies cart.id version cart cart_ttl_seconds
        set_index user_id cart.id
        price_action cart next
  merge_loaded anon_id user_id none (some (existing, version)) = price_action existing (pos version)
  merge_loaded anon_id user_id (some (anon, _)) (some (existing, version)) =
      let merged = merged_cart existing anon in
      do
        modify between
        next ← cas replies merged.id version merged cart_ttl_seconds
        del_cart anon_id
        price_action merged next

  unfoldable pub merge : String → String → Action Cart
  merge anon_id user_id = do
    anon ← load anon_id
    existing_id ← get_index user_id
    existing ← load_index existing_id
    merge_loaded anon_id user_id anon existing
