-- ===== src/Tests/Products.antt =====
-- The catalogue cache, the reviews and the toasts at concrete data
-- (services/cart-service/src/catalog.ts, services/review-service/src/reviews.ts,
-- apps/storefront/src/hooks/use-toast.ts).
use ecomerce_microservices_o.Prelude.{
  ◌≡◌, refl, String, List, [], Option, none, some, str_eq, if◌then◌else◌,
}
use ecomerce_microservices_o.Prelude.Int.{pos, negsuc, ◌+ℤ◌, ◌*ℤ◌}
use ecomerce_microservices_o.Cart.Types.{Variant}
use ecomerce_microservices_o.Catalog.{Cache, CacheEntry}
use ecomerce_microservices_o.Rating.{
  summarise, apply_delta, bucket_for, update_bucket, weighted_from, total_of,
}
use ecomerce_microservices_o.Rating.Summary.{histogram, apply_delta_cancel}
use ecomerce_microservices_o.Toast.{State, initial, toast, dismiss}

abbrev mug : Variant
mug = record {
  sku = "mug";
  product_id = "p1";
  title = "Mug";
  image = none;
  price = record { amount = pos 500; currency = "EGP" };
  status = "ACTIVE";
  category_path = [];
  brand = none;
  attributes = [];
}

abbrev mug_entry : CacheEntry
mug_entry = record { v = mug; at = 1000 }

abbrev mug_cache : Cache
mug_cache sku = if str_eq sku "mug" then some mug_entry else none

abbrev no_network : List String → Option (List Variant)
no_network skus = none

summarise_run : summarise (histogram 1 0 0 0 2) ≡ record { average = pos 37; count = pos 3 }
unfolding summarise total_of weighted_from ◌+ℤ◌ ◌*ℤ◌
summarise_run = refl

published_delta : apply_delta (histogram 1 0 0 0 2) 5 (pos 1) ≡ some (histogram 1 0 0 0 3)
unfolding apply_delta bucket_for update_bucket ◌+ℤ◌
published_delta = refl

apply_delta_cancel_example :
    apply_delta (histogram 1 0 0 0 3) 5 (negsuc 0) ≡ some (histogram 1 0 0 0 2)
apply_delta_cancel_example = apply_delta_cancel 1 0 0 0 2 5 published_delta

abbrev dismissed_once : State
dismissed_once = dismiss 1 (toast "Saved" initial).1
