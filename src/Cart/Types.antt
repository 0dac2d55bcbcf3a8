-- ===== src/Cart/Types.antt =====
-- What cart-service stores, sends and answers: the interfaces of services/cart-service/src/cart.ts,
-- pricing.ts and catalog.ts, and the cart of the contracts. Times are milliseconds of the clock,
-- where the code writes ISO strings; coupon codes are lists of character codes.
use ecomerce_microservices_o.Prelude.{ℕ, ◌*◌, Bool, String, List, Option}
use ecomerce_microservices_o.Prelude.Int.{ℤ}
use ecomerce_microservices_o.Money.{Money}

abbrev pub Code : Type 0
Code = List ℕ

abbrev pub cart_ttl_seconds : ℕ
cart_ttl_seconds = 30 * 24 * 60 * 60

abbrev pub anon_cart_ttl_seconds : ℕ
anon_cart_ttl_seconds = 7 * 24 * 60 * 60

abbrev pub max_lines : ℕ
max_lines = 100

abbrev pub max_qty_per_line : ℕ
max_qty_per_line = 99

pub record StoredLine : Type 0 where
  pub sku : String
  pub product_id : String
  pub quantity : ℕ
  pub added_at_price : ℤ
  pub added_at : ℕ

pub record StoredCart : Type 0 where
  pub id : String
  pub user_id : Option String
  pub lines : List StoredLine
  pub currency : String
  pub coupons : List Code
  pub country_code : String
  pub created_at : ℕ
  pub updated_at : ℕ

-- catalog.ts
pub record Variant : Type 0 where
  pub sku : String
  pub product_id : String
  pub title : String
  pub image : Option String
  pub price : Money
  pub status : String
  pub category_path : List String
  pub brand : Option String
  pub attributes : List (String × String)

pub record HydratedLine : Type 0 where
  pub sku : String
  pub product_id : String
  pub title : String
  pub image : Option String
  pub quantity : ℕ
  pub unit_price : Money
  pub category_path : List String
  pub brand : Option String
  pub attributes : List (String × String)

-- pricing.ts: the request to pricing-engine and its answer.
pub record RequestLine : Type 0 where
  pub sku : String
  pub product_id : String
  pub quantity : ℕ
  pub unit_list_price : Money
  pub category_path : List String
  pub brand : Option String
  pub attributes : List (String × String)

pub record PricingContext : Type 0 where
  pub user_id : Option String
  pub currency : String
  pub country_code : String
  pub coupon_codes : List Code
  pub channel : String

pub record CalculateRequest : Type 0 where
  pub lines : List RequestLine
  pub context : PricingContext

pub record PricedLine : Type 0 where
  pub unit_effective_price : Money
  pub line_total : Money
  pub line_discount : Money

pub record AppliedPromotion : Type 0 where
  pub promotion_id : String
  pub name : String
  pub discount : Money
  pub coupon_code : Option Code

pub record RejectedPromotion : Type 0 where
  pub coupon_code : Code
  pub reason_code : String

pub record PricedCart : Type 0 where
  pub lines : List PricedLine
  pub subtotal : Money
  pub discount_total : Money
  pub shipping_total : Money
  pub tax_total : Money
  pub grand_total : Money
  pub applied_promotions : List AppliedPromotion
  pub rejected_promotions : List RejectedPromotion
  pub rules_version : String
  pub degraded : Bool

-- The cart that the service answers with.
pub record CartLine : Type 0 where
  pub sku : String
  pub product_id : String
  pub title : String
  pub image : Option String
  pub quantity : ℕ
  pub unit_price : Money
  pub line_total : Money
  pub price_changed : Bool

pub record AppliedCoupon : Type 0 where
  pub code : Code
  pub discount : Money
  pub name : String

pub record Cart : Type 0 where
  pub id : String
  pub user_id : Option String
  pub lines : List CartLine
  pub subtotal : Money
  pub discount_total : Money
  pub shipping_total : Money
  pub tax_total : Money
  pub total : Money
  pub applied_coupons : List AppliedCoupon
  pub rejected_coupons : List RejectedPromotion
  pub currency : String
  pub pricing_degraded : Bool
  pub rules_version : Option String
  pub version : ℤ
  pub expires_at : ℕ
  pub updated_at : ℕ
