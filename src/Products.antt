-- ===== src/Products.antt =====
-- Product cards and the product page of the storefront
-- (apps/storefront/src/components/catalog/product-card.tsx, price.tsx and stock-indicator.tsx, and
-- app/products/[slug]/page.tsx). Amounts of one currency are whole numbers; of a list of images only
-- the first is kept; markup is left out.
pub mod Cheapest
pub mod Leads
use ecomerce_microservices_o.Prelude.{
  ℕ, Bool, true, false, ◌||◌, String, List, [], ◌∷◌, Option, none, some, leb, ltb, ◌==◌,
  if◌then◌else◌,
}
use ecomerce_microservices_o.Variants.{ProductVariant, may_be_bought}
use ecomerce_microservices_o.Listing.{discount_percent}

-- A variant of a product, with what the picker does not read.
pub record Variant : Type 0 where
  pub variant : ProductVariant
  pub list_price : Option ℕ
  pub image : Option String

pub record Product : Type 0 where
  pub id : String
  pub title : String
  pub slug : String
  pub brand : Option String
  pub image : Option String
  pub price : ℕ
  pub list_price : Option ℕ
  pub is_active : Bool
  pub variants : List Variant
  pub rating : Option (ℕ × ℕ)

pub record ProductCardItem : Type 0 where
  pub product_id : String
  pub title : String
  pub slug : String
  pub brand : Option String
  pub image : Option String
  pub price : ℕ
  pub list_price : Option ℕ
  pub rating : Option ℕ
  pub rating_count : ℕ
  pub in_stock : Bool

-- The `reduce` over the variants, from the first one
unfoldable pub cheapest_from : Variant → List Variant → Variant
cheapest_from a [] = a
cheapest_from a (b ∷ vs) = cheapest_from (if ltb b.variant.price a.variant.price then b else a) vs

unfoldable pub cheapest_of : List Variant → Option Variant
cheapest_of [] = none
cheapest_of (v ∷ vs) = some (cheapest_from v vs)

abbrev pub or_else : {A : Type 0} → Option A → Option A → Option A
or_else (some a) other = some a
or_else none other = other

abbrev pub image_of : Option Variant → Option String
image_of none = none
image_of (some v) = v.image

abbrev pub price_of : Option Variant → ℕ → ℕ
price_of none price = price
price_of (some v) price = v.variant.price

abbrev pub list_price_of : Option Variant → Option ℕ
list_price_of none = none
list_price_of (some v) = v.list_price

abbrev pub average_of : Option (ℕ × ℕ) → Option ℕ
average_of none = none
average_of (some (average, count)) = some average

abbrev pub count_of : Option (ℕ × ℕ) → ℕ
count_of none = 0
count_of (some (average, count)) = count

unfoldable pub some_bought : List Variant → Bool
some_bought [] = false
some_bought (v ∷ vs) = may_be_bought v.variant.available || some_bought vs

abbrev pub in_stock : List Variant → Bool
in_stock [] = true
in_stock (v ∷ vs) = some_bought (v ∷ vs)

-- fromProduct
unfoldable pub from_product : Product → ProductCardItem
from_product p = record {
  product_id = p.id;
  title = p.title;
  slug = p.slug;
  brand = p.brand;
  image = or_else p.image (image_of (cheapest_of p.variants));
  price = price_of (cheapest_of p.variants) p.price;
  list_price = or_else (list_price_of (cheapest_of p.variants)) p.list_price;
  rating = average_of p.rating;
  rating_count = count_of p.rating;
  in_stock = in_stock p.variants;
}

-- Price: the reference price and the saving that it shows, where it shows one.
abbrev pub with_reference : Option ℕ → Option ℕ → Option (ℕ × ℕ)
with_reference (some saving) (some list_price) = some (list_price, saving)
with_reference saving list_price = none

unfoldable pub reference_of : ℕ → Option ℕ → Option (ℕ × ℕ)
reference_of price list_price = with_reference (discount_percent price list_price) list_price

-- StockIndicator: what it says
pub data StockPanel : Type 0 where
  silent : StockPanel
  out_of_stock : StockPanel
  only_left : ℕ → StockPanel
  in_stock_panel : StockPanel

unfoldable pub stock_panel : Option ℕ → StockPanel
stock_panel none = silent
stock_panel (some n) =
    if leb n 0 then out_of_stock else if leb n 5 then only_left n else in_stock_panel

-- loadProduct, from the end of its call
pub data Fetched : Type 0 where
  answered : Product → Fetched
  bff_error : ℕ → Fetched
  other_error : Fetched

pub data Loaded : Type 0 where
  loaded : Product → Loaded
  not_found : Loaded
  thrown : Fetched → Loaded

unfoldable pub load_product : Fetched → Loaded
load_product (answered p) = loaded p
load_product (bff_error status) = if status == 404 then not_found else thrown (bff_error status)
load_product other_error = thrown other_error

-- What ProductPage leads with: the price, its reference price, the stock, and the buy box.
pub data BuyBox : Type 0 where
  picker : List Variant → BuyBox
  add_to_cart : String → Option ℕ → BuyBox
  no_box : BuyBox

abbrev pub single_box : Option Variant → BuyBox
single_box none = no_box
single_box (some v) = add_to_cart v.variant.sku v.variant.available

unfoldable pub buy_box : List Variant → BuyBox
buy_box (v ∷ w ∷ vs) = picker (v ∷ w ∷ vs)
buy_box vs = single_box (cheapest_of vs)

pub record Lead : Type 0 where
  pub price : Option ℕ
  pub reference : Option (ℕ × ℕ)
  pub stock : Option StockPanel
  pub box : BuyBox
  pub image : Option String

abbrev pub lead_of : Option Variant → Product → Lead
lead_of none p = record {
  price = none;
  reference = none;
  stock = none;
  box = buy_box p.variants;
  image = p.image;
}
lead_of (some v) p = record {
  price = some v.variant.price;
  reference = reference_of v.variant.price v.list_price;
  stock = some (stock_panel v.variant.available);
  box = buy_box p.variants;
  image = or_else p.image v.image;
}

unfoldable pub product_page : Product → Lead
product_page p = lead_of (cheapest_of p.variants) p
