-- ===== src/Tests/Listings.antt =====
-- Listings, variants and product cards at concrete data (apps/storefront/src/components/catalog).
use ecomerce_microservices_o.Prelude.{
  ℕ, ◌≡◌, ◌↔◌, refl, true, false, String, List, [], ◌∷◌, Option, none, some, All,
}
use ecomerce_microservices_o.Listing.{
  Params, get_all, delete_key, toggle, last_page, discount_percent,
}
use ecomerce_microservices_o.Variants.{
  ProductVariant, has_value, filter_variants, choose, selectable, may_be_bought, initial_selection,
  find_variant, agrees,
}
use ecomerce_microservices_o.Products.{
  Variant, Product, cheapest_from, cheapest_of, from_product, reference_of, product_page,
}
use ecomerce_microservices_o.Products.Cheapest.{IsAtLeast, picked_from}
use ecomerce_microservices_o.Products.Leads.{
  IsSoldOut, IsOnly, from_product-cheapest, initial_selection-led,
}
use ecomerce_microservices_o.Variants.Choice.{IsIn, IsMap, IsLanded, choose-IsLanded}

abbrev params : Params
params = ("q", "shoes") ∷ ("colour", "red") ∷ ("page", "7") ∷ []

toggle_run :
    toggle "colour" "blue" true params
    ≡ ("q", "shoes") ∷ ("colour", "red") ∷ ("colour", "blue") ∷ []
unfolding toggle get_all delete_key
toggle_run = refl

-- The last page of a full window of 24 results a page ends past the window.
last_page_run : last_page 20000 24 ≡ 417
unfolding last_page
last_page_run = refl

abbrev variant : String → String → String → ProductVariant
variant sku colour size = record {
  sku = sku;
  attributes = ("colour", colour) ∷ ("size", size) ∷ [];
  price = 100;
  available = none;
}

abbrev variants : List ProductVariant
variants = variant "a" "red" "S" ∷ variant "b" "blue" "L" ∷ []

-- Red comes only in S, blue only in L.
choose-IsLanded_example :
    IsLanded variants "colour" "blue"
      (choose variants "colour" "blue" (("colour", "red") ∷ ("size", "S") ∷ []))
unfolding filter_variants has_value
choose-IsLanded_example =
    choose-IsLanded variants "colour" "blue" (("colour", "red") ∷ ("size", "S") ∷ [])
      (((refl, tt), (tt, tt)), (((refl, tt), (tt, tt)), tt)) (λ h. cc h)

abbrev shirt : String → String → ℕ → Option ℕ → Variant
shirt sku size price available = record {
  variant = record {
    sku = sku;
    attributes = ("size", size) ∷ [];
    price = price;
    available = available;
  };
  list_price = none;
  image = none;
}

abbrev shirts : List Variant
shirts = shirt "s2" "m" 900 none ∷ shirt "s3" "l" 900 (some 4) ∷ []

-- The first variant is dearer and known to be sold out.
abbrev shirt_product : Product
shirt_product = record {
  id = "prd_1";
  title = "Shirt";
  slug = "shirt";
  brand = none;
  image = none;
  price = 1000;
  list_price = some 1200;
  is_active = true;
  variants = shirt "s1" "s" 1000 (some 0) ∷ shirts;
  rating = none;
}

from_product-cheapest_example :
    ((w : Variant) × IsIn w (shirt "s1" "s" 1000 (some 0) ∷ shirts)
      × ((from_product shirt_product).price ≡ w.variant.price)
      × All (IsAtLeast w.variant.price) (shirt "s1" "s" 1000 (some 0) ∷ shirts))
    × (((from_product shirt_product).in_stock ≡ false)
        ↔ All IsSoldOut (shirt "s1" "s" 1000 (some 0) ∷ shirts))
from_product-cheapest_example =
    from_product-cheapest shirt_product (shirt "s1" "s" 1000 (some 0)) shirts refl

led_run :
    may_be_bought (cheapest_from (shirt "s1" "s" 1000 (some 0)) shirts).variant.available ≡ true
unfolding cheapest_from
led_run = refl

led-IsMap : IsMap (cheapest_from (shirt "s1" "s" 1000 (some 0)) shirts).variant.attributes
unfolding cheapest_from
led-IsMap = (tt, tt)

led-IsOnly :
    IsOnly
      (cheapest_from (shirt "s1" "s" 1000 (some 0)) shirts)
      (shirt "s1" "s" 1000 (some 0) ∷ shirts)
unfolding cheapest_from agrees has_value
led-IsOnly = (λ e. absurd (cc e), (λ e. refl, (λ e. absurd (cc e), tt)))

initial_selection-led_example :
    find_variant
      (initial_selection (selectable (picked_from (shirt "s1" "s" 1000 (some 0) ∷ shirts))))
      (selectable (picked_from (shirt "s1" "s" 1000 (some 0) ∷ shirts)))
    ≡ some (cheapest_from (shirt "s1" "s" 1000 (some 0)) shirts).variant
initial_selection-led_example =
    initial_selection-led (shirt "s1" "s" 1000 (some 0)) shirts (refl, (refl, (refl, tt))) led_run
      led-IsMap led-IsOnly

-- The card shows the reference price of the product, and the page that of the variant, which has none.
reference_run :
    (reference_of (from_product shirt_product).price (from_product shirt_product).list_price
      ≡ some (1200, 25))
    × ((product_page shirt_product).reference ≡ none)
unfolding from_product product_page cheapest_of cheapest_from reference_of discount_percent
reference_run = (refl, refl)
