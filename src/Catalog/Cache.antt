-- ===== src/Catalog/Cache.antt =====
-- What the catalogue cache answers (services/cart-service/src/catalog.ts).
use ecomerce_microservices_o.Prelude.{
  ℕ, ◌+◌, ◌*◌, ◌≤◌, ◌<◌, ◌≡◌, refl, ◌⊎◌, inl, inr, true, false, String, List, [], ◌∷◌, Option, none,
  some, arith, ltb, All, Bool-cases,
}
use ecomerce_microservices_o.Cart.Types.{Variant}
use ecomerce_microservices_o.Catalog.{
  CacheEntry, Cache, ttl_ms, fresh, split_hits, stale_items, add_stale, get_variants, get_variant,
  prune,
}

-- The variants the cache has of the given skus, in the order asked.
abbrev pub cached : Cache → List String → List Variant
cached cache [] = []
cached cache (sku ∷ skus) = add_stale (cache sku) (cached cache skus)

abbrev pub IsFresh : Cache → ℕ → String → Type 0
IsFresh cache now sku = (e : CacheEntry) × (cache sku ≡ some e) × (now < e.at + ttl_ms)

split_hits_fresh :
    (cache : Cache) (now : ℕ) (skus : List String)
    → All (IsFresh cache now) skus
    → split_hits cache now skus ≡ (cached cache skus, [])
unfolding split_hits
split_hits_fresh cache now [] h = refl
split_hits_fresh cache now (sku ∷ skus) ((e, has, young), h) =
    let test : ltb now (e.at + ttl_ms) ≡ true = ground arith in
    rw has (rw test (rw (split_hits_fresh cache now skus h)))

-- A call that finds every sku in the cache, each stored less than the time to live ago, makes no
-- request and answers the cached variants in the order asked.
pub get_variants_fresh :
    (now : ℕ) (fetch : List String → Option (List Variant)) (skus : List String) (cache : Cache)
    → All (IsFresh cache now) skus
    → get_variants now fetch skus cache ≡ (cached cache skus, cache)
unfolding get_variants
get_variants_fresh now fetch skus cache h = rw (split_hits_fresh cache now skus h)

-- A pruned cache still serves an entry that was at most ten times ttl_ms old at the pruning: while
-- it is fresh, whatever the network does, and afterwards whenever the request fails.
pub get_variant-prune :
    (now pruned_at : ℕ) (fetch : List String → Option (List Variant)) (sku : String) (cache : Cache)
    (e : CacheEntry)
    → cache sku ≡ some e
    → pruned_at ≤ e.at + ttl_ms * 10
    → (now < e.at + ttl_ms) ⊎ (fetch (sku ∷ []) ≡ none)
    → get_variant now fetch sku (prune pruned_at cache) ≡ (some e.v, prune pruned_at cache)
unfolding get_variant get_variants split_hits stale_items
get_variant-prune now pruned_at fetch sku cache e has kept_young served =
    elim (Bool-cases (ltb now (e.at + ttl_ms))) [
      | inl young ↦ rw kept (rw young)
      | inr old ↦
          let stale : fresh now (prune pruned_at cache sku) ≡ none = rw kept (rw old) in
          rw stale (rw stale (rw (fails old served) (rw kept)))
    ]
  where
    kept : prune pruned_at cache sku ≡ some e
    kept = unfold prune in rw has (ground arith)

    fails :
        ltb now (e.at + ttl_ms) ≡ false
        → (now < e.at + ttl_ms) ⊎ (fetch (sku ∷ []) ≡ none)
        → fetch (sku ∷ []) ≡ none
    fails old (inl p) = absurd (ground arith)
    fails old (inr p) = p
