-- ===== src/Listing/Bounds.antt =====
-- The bounds of the page links and of the saving
-- (apps/storefront/src/components/catalog/pagination.tsx and src/lib/utils.ts).
use ecomerce_microservices_o.Prelude.{
  ℕ, zero, suc, ◌+◌, ◌-◌, ◌*◌, ◌/◌, ◌≤◌, ◌<◌, ◌≡◌, sym, min, max, some, leb, arith, inl, inr,
  Bool-cases,
}
use native.Mathlib.Nat.{div-mul-le_self, lt-div-mul-add, div-le_of_le-mul}
use ecomerce_microservices_o.Listing.{ceil_div, last_page, discount_percent, max_result_window}

page_bounds :
    (n size q : ℕ)
    → 1 ≤ size
    → 1 ≤ n
    → q * size ≤ n + (size - 1)
    → n + (size - 1) < q * size + size
    → ((max 1 q - 1) * size < n) × (n ≤ max 1 q * size)
page_bounds n size zero h some_hit low high = absurd (grind arith)
page_bounds n size (suc q) h some_hit low high = (grind arith, grind arith)

-- With at least one result and a page size that is not 0, the last page that is linked starts before
-- the end of the results that can be reached, and the pages up to it hold all of these.
pub last_page_bounds :
    (total size : ℕ)
    → 1 ≤ size
    → 1 ≤ total
    → ((last_page total size - 1) * size < min total max_result_window)
      × (min total max_result_window ≤ last_page total size * size)
unfolding last_page
last_page_bounds total size pos_size pos_total =
    let n = min total max_result_window in
    page_bounds n size (ceil_div n size) pos_size (omega arith)
      (div-mul-le_self (n + (size - 1)) size) (lt-div-mul-add pos_size)

-- A saving that is shown is from 1 to 100 percent, and not more than the real one.
pub discount_percent_bounds :
    (price list_price saved : ℕ)
    → discount_percent price (some list_price) ≡ some saved
    → (1 ≤ saved) × (saved ≤ 100) × (saved * list_price ≤ (list_price - price) * 100)
unfolding discount_percent
discount_percent_bounds price list_price saved h =
    let quotient = (list_price - price) * 100 / list_price in
    elim (Bool-cases (leb list_price price)) [
      | inl dearer ↦ absurd (cc (rw dearer at h))
      | inr cheaper ↦ elim (Bool-cases (leb quotient 0)) [
        | inl nothing ↦ absurd (cc (rw (cheaper, nothing) at h))
        | inr some_saved ↦
            let same : quotient ≡ saved = cc (rw (cheaper, some_saved) at h) in
            rw (sym same) (
              ground arith,
              div-le_of_le-mul list_price (omega arith),
              div-mul-le_self ((list_price - price) * 100) list_price,
            )
      ]
    ]
