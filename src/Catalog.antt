-- ===== src/Catalog.antt =====
-- The read-through cache of catalog-service in cart-service (services/cart-service/src/catalog.ts).
pub mod Cache
use ecomerce_microservices_o.Prelude.{
  ℕ, ◌+◌, ◌-◌, ◌*◌, ◌≡◌, Bool, true, false, String, List, [], ◌∷◌, ◌++◌, Option, none, some, ltb,
  if◌then◌else◌,
}
use ecomerce_microservices_o.Prelude.Store.{update}
use ecomerce_microservices_o.Cart.Types.{Variant}

abbrev pub ttl_ms : ℕ
ttl_ms = 60000

pub record CacheEntry : Type 0 where
  pub v : Variant
  pub at : ℕ

abbrev pub Cache : Type 0
Cache = String → Option CacheEntry

-- `hit && now - hit.at < TTL_MS`
abbrev pub fresh : ℕ → Option CacheEntry → Option Variant
fresh now none = none
fresh now (some e) = if ltb now (e.at + ttl_ms) then some e.v else none

abbrev add_sku : String → Option Variant → List Variant × List String → List Variant × List String
add_sku sku none (hits, missing) = (hits, sku ∷ missing)
add_sku sku (some v) (hits, missing) = (v ∷ hits, missing)

-- The first loop: the variants that are fresh in the cache, and the skus that are missing.
unfoldable pub split_hits : Cache → ℕ → List String → List Variant × List String
split_hits cache now [] = ([], [])
split_hits cache now (sku ∷ skus) = add_sku sku (fresh now (cache sku)) (split_hits cache now skus)

-- The second loop: every variant of the answer is stored.
unfoldable pub store_items : ℕ → List Variant → Cache → Cache
store_items now [] cache = cache
store_items now (v ∷ vs) cache =
    store_items now vs (update cache v.sku (some (record { v = v; at = now })))

abbrev pub add_stale : Option CacheEntry → List Variant → List Variant
add_stale none vs = vs
add_stale (some e) vs = e.v ∷ vs

-- The handler: what the cache has of the missing skus, however old.
unfoldable pub stale_items : Cache → List String → List Variant
stale_items cache [] = []
stale_items cache (sku ∷ skus) = add_stale (cache sku) (stale_items cache skus)

-- The answer to the request for the missing skus: `none` is an error, a timeout or a status that is
-- not ok.
abbrev pub fetched :
    ℕ → List Variant → List String → Option (List Variant) → Cache → List Variant × Cache
fetched now out missing (some items) cache = (out ++ items, store_items now items cache)
fetched now out missing none cache = (out ++ stale_items cache missing, cache)

abbrev fetch_missing :
    ℕ
    → (List String → Option (List Variant))
    → List Variant × List String
    → Cache
    → List Variant × Cache
fetch_missing now fetch (out, []) cache = (out, cache)
fetch_missing now fetch (out, sku ∷ skus) cache =
    fetched now out (sku ∷ skus) (fetch (sku ∷ skus)) cache

unfoldable pub get_variants :
    ℕ → (List String → Option (List Variant)) → List String → Cache → List Variant × Cache
unfolding split_hits store_items stale_items
get_variants now fetch skus cache = fetch_missing now fetch (split_hits cache now skus) cache

abbrev pub first_variant : List Variant × Cache → Option Variant × Cache
first_variant ([], cache) = (none, cache)
first_variant (v ∷ vs, cache) = (some v, cache)

abbrev get_with :
    ℕ
    → (List String → Option (List Variant))
    → String
    → Cache
    → Option Variant
    → Option Variant × Cache
get_with now fetch sku cache (some v) = (some v, cache)
get_with now fetch sku cache none = first_variant (get_variants now fetch (sku ∷ []) cache)

unfoldable pub get_variant :
    ℕ → (List String → Option (List Variant)) → String → Cache → Option Variant × Cache
unfolding get_variants
get_variant now fetch sku cache = get_with now fetch sku cache (fresh now (cache sku))

abbrev pub keep_young : ℕ → Option CacheEntry → Option CacheEntry
keep_young now none = none
keep_young now (some e) = if ltb (e.at + ttl_ms * 10) now then none else some e

-- prune
unfoldable pub prune : ℕ → Cache → Cache
prune now cache sku = keep_young now (cache sku)
