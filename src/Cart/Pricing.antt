-- ===== src/Cart/Pricing.antt =====
-- Pricing a cart: `hydrate`, `price` and `degradedCart` of services/cart-service/src/cart.ts.
-- The catalogue and pricing-engine are what the cart sees of them: `none` is a rejected call.
pub mod Laws
use ecomerce_microservices_o.Prelude.{
  ℕ, zero, suc, ◌+◌, ◌*◌, ◌≡◌, Bool, true, false, not, String, List, [], ◌∷◌, Option, none, some,
  map, if◌then◌else◌, str_eq, get_elem?,
}
use ecomerce_microservices_o.Prelude.Int.{ℤ, pos, ℤ_eq}
use ecomerce_microservices_o.Money.{Money, add_money, multiply_money, zero_money}
use ecomerce_microservices_o.Cart.Types.{
  Code, StoredLine, StoredCart, Variant, HydratedLine, RequestLine, CalculateRequest, PricedLine,
  AppliedPromotion, PricedCart, CartLine, AppliedCoupon, Cart,
}
use ecomerce_microservices_o.Cart.Redis.{ttl_for}

-- `new Map(variants.map((v) => [v.sku, v])).get(sku)`: a later variant replaces an earlier one.
unfoldable pub by_sku : List Variant → String → Option Variant
by_sku [] sku = none
by_sku (v ∷ vs) sku = elim (by_sku vs sku) [
  | some w ↦ some w
  | none ↦ if str_eq v.sku sku then some v else none
]

abbrev pub hydrated : StoredLine → Variant → HydratedLine
hydrated line v = record {
  sku = line.sku;
  product_id = v.product_id;
  title = v.title;
  image = v.image;
  quantity = line.quantity;
  unit_price = v.price;
  category_path = v.category_path;
  brand = v.brand;
  attributes = v.attributes;
}

-- A line whose product is gone is dropped.
unfoldable pub hydrate_lines : List Variant → List StoredLine → List HydratedLine
unfolding by_sku
hydrate_lines vs [] = []
hydrate_lines vs (l ∷ ls) =
    let rest = hydrate_lines vs ls in
    elim (by_sku vs l.sku) [ none ↦ rest | some v ↦ hydrated l v ∷ rest ]

-- An empty cart makes no call.
unfoldable pub hydrate : (List String → List Variant) → StoredCart → List HydratedLine
unfolding hydrate_lines
hydrate get_variants cart = elim cart.lines [
  | [] ↦ []
  | _ ∷ _ ↦ hydrate_lines (get_variants (map (λ (l : StoredLine). l.sku) cart.lines)) cart.lines
]

abbrev pub request_line : HydratedLine → RequestLine
request_line l = record {
  sku = l.sku;
  product_id = l.product_id;
  quantity = l.quantity;
  unit_list_price = l.unit_price;
  category_path = l.category_path;
  brand = l.brand;
  attributes = l.attributes;
}

abbrev pub calculate_request : StoredCart → List HydratedLine → CalculateRequest
calculate_request cart lines = record {
  lines = map request_line lines;
  context = record {
    user_id = cart.user_id;
    currency = cart.currency;
    country_code = cart.country_code;
    coupon_codes = cart.coupons;
    channel = "web";
  };
}

abbrev pub expires_at : ℕ → StoredCart → ℕ
expires_at now cart = now + ttl_for cart * 1000

-- `p?.unitEffectivePrice ?? l.unitPrice` and `p?.lineTotal ?? …`
abbrev pub effective_price : Option PricedLine → HydratedLine → Money
effective_price none l = l.unit_price
effective_price (some p) l = p.unit_effective_price

abbrev pub effective_total : Option PricedLine → HydratedLine → Money
effective_total none l = multiply_money l.unit_price l.quantity
effective_total (some p) l = p.line_total

-- `… !== stored.addedAtPrice`; with no stored line at the index the code would throw, which does
-- not happen, as there are no more hydrated lines than stored ones.
abbrev pub differs_from : ℤ → Option StoredLine → Bool
differs_from amount none = false
differs_from amount (some stored) = not (ℤ_eq amount stored.added_at_price)

unfoldable pub priced_line : Option PricedLine → Option StoredLine → HydratedLine → CartLine
priced_line p stored l = record {
  sku = l.sku;
  product_id = l.product_id;
  title = l.title;
  image = l.image;
  quantity = l.quantity;
  unit_price = effective_price p l;
  line_total = effective_total p l;
  price_changed = differs_from (effective_price p l).amount stored;
}

-- `lines.map((l, i) => …)`: the priced and the stored line are read at the index of `l`.
unfoldable pub priced_lines :
    List PricedLine → List StoredLine → ℕ → List HydratedLine → List CartLine
unfolding priced_line
priced_lines ps stored i [] = []
priced_lines ps stored i (l ∷ ls) =
    priced_line (get_elem? ps i) (get_elem? stored i) l ∷ priced_lines ps stored (suc i) ls

unfoldable pub applied_coupons : List AppliedPromotion → List AppliedCoupon
applied_coupons [] = []
applied_coupons (p ∷ ps) =
    let rest = applied_coupons ps in
    elim p.coupon_code [
      | none ↦ rest
      | some [] ↦ rest
      | some (x ∷ c) ↦ record { code = x ∷ c; discount = p.discount; name = p.name } ∷ rest
    ]

abbrev pub priced_cart : ℕ → StoredCart → List HydratedLine → ℤ → PricedCart → Cart
priced_cart now cart lines version priced = record {
  id = cart.id;
  user_id = cart.user_id;
  lines = priced_lines priced.lines cart.lines 0 lines;
  subtotal = priced.subtotal;
  discount_total = priced.discount_total;
  shipping_total = priced.shipping_total;
  tax_total = priced.tax_total;
  total = priced.grand_total;
  applied_coupons = applied_coupons priced.applied_promotions;
  rejected_coupons = priced.rejected_promotions;
  currency = cart.currency;
  pricing_degraded = priced.degraded;
  rules_version = some priced.rules_version;
  version = version;
  expires_at = expires_at now cart;
  updated_at = cart.updated_at;
}

abbrev pub degraded_line : HydratedLine → CartLine
degraded_line l = record {
  sku = l.sku;
  product_id = l.product_id;
  title = l.title;
  image = l.image;
  quantity = l.quantity;
  unit_price = l.unit_price;
  line_total = multiply_money l.unit_price l.quantity;
  price_changed = false;
}

-- The accumulation of `subtotal`; `none` is the error thrown by `addMoney`.
unfoldable pub degraded_subtotal : Money → List HydratedLine → Option Money
degraded_subtotal acc [] = some acc
degraded_subtotal acc (l ∷ ls) = elim (add_money acc (multiply_money l.unit_price l.quantity)) [
  | none ↦ none
  | some acc' ↦ degraded_subtotal acc' ls
]

abbrev pub degraded_with : ℕ → StoredCart → List HydratedLine → ℤ → Money → Cart
degraded_with now cart lines version subtotal = record {
  id = cart.id;
  user_id = cart.user_id;
  lines = map degraded_line lines;
  subtotal = subtotal;
  discount_total = zero_money cart.currency;
  shipping_total = zero_money cart.currency;
  tax_total = zero_money cart.currency;
  total = subtotal;
  applied_coupons = [];
  rejected_coupons = [];
  currency = cart.currency;
  pricing_degraded = true;
  rules_version = none;
  version = version;
  expires_at = expires_at now cart;
  updated_at = cart.updated_at;
}

unfoldable pub degraded_cart : ℕ → StoredCart → List HydratedLine → ℤ → Option Cart
unfolding degraded_subtotal
degraded_cart now cart lines version = elim (degraded_subtotal (zero_money cart.currency) lines) [
  | none ↦ none
  | some subtotal ↦ some (degraded_with now cart lines version subtotal)
]

abbrev pub price_with : ℕ → StoredCart → List HydratedLine → ℤ → Option PricedCart → Option Cart
price_with now cart lines version none = degraded_cart now cart lines version
price_with now cart lines version (some priced) = some (priced_cart now cart lines version priced)

unfoldable pub price :
    (List String → List Variant)
    → (CalculateRequest → Option PricedCart)
    → ℕ
    → StoredCart
    → ℤ
    → Option Cart
unfolding hydrate degraded_cart
price get_variants calculate now cart version =
    let lines = hydrate get_variants cart in
    price_with now cart lines version (calculate (calculate_request cart lines))
