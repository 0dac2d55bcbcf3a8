-- ===== src/Cart/Pricing/Laws.antt =====
-- What the cart shows when pricing-engine answers and when it does not
-- (services/cart-service/src/cart.ts).
use ecomerce_microservices_o.Prelude.{
  ℕ, zero, suc, ◌+◌, ◌≡◌, refl, ◌≢◌, inl, inr, true, not, String, List, [], ◌∷◌, Option, none, some,
  arith, eq_iff, str_eq_ne, get_elem?, length, All, Option-cases, String-cases, length-map, ap, sym,
}
use ecomerce_microservices_o.Prelude.Int.{ℤ, pos, ◌+ℤ◌, ◌*ℤ◌, ℤ_eq, int_laws}
use ecomerce_microservices_o.Money.{Money, add_money, multiply_money, zero_money}
use ecomerce_microservices_o.Cart.Types.{
  StoredLine, StoredCart, Variant, HydratedLine, PricedLine, CalculateRequest, PricedCart, CartLine,
  Cart,
}
use ecomerce_microservices_o.Cart.Pricing.{
  by_sku, hydrated, hydrate_lines, hydrate, calculate_request, priced_line, priced_lines,
  degraded_line, degraded_with, degraded_subtotal, degraded_cart, price,
}

-- The sum of quantity times unit price.
abbrev pub list_total : List HydratedLine → ℤ
list_total [] = pos 0
list_total (l ∷ ls) = l.unit_price.amount *ℤ pos l.quantity +ℤ list_total ls

abbrev pub InCurrency : String → HydratedLine → Type 0
InCurrency c l = l.unit_price.currency ≡ c

add_to_total : (a b c : ℤ) → a +ℤ b +ℤ c ≡ a +ℤ (b +ℤ c)
add_to_total a b c = omega int_laws

abbrev plus_line : Money → HydratedLine → Money
plus_line acc l = record acc { amount = acc.amount +ℤ l.unit_price.amount *ℤ pos l.quantity }

degraded_subtotal_same :
    (acc : Money) (l : HydratedLine) (ls : List HydratedLine)
    → l.unit_price.currency ≡ acc.currency
    → degraded_subtotal acc (l ∷ ls) ≡ degraded_subtotal (plus_line acc l) ls
unfolding degraded_subtotal add_money multiply_money
degraded_subtotal_same acc l ls p =
    rw ((eq_iff acc.currency l.unit_price.currency).1 (sym p), degraded_subtotal) refl

degraded_subtotal_total :
    (acc : Money) (ls : List HydratedLine)
    → All (InCurrency acc.currency) ls
    → degraded_subtotal acc ls
      ≡ some (record { amount = acc.amount +ℤ list_total ls; currency = acc.currency })
unfolding degraded_subtotal add_money multiply_money
degraded_subtotal_total acc [] h =
    ap (λ (a : ℤ). some (record acc { amount = a })) (add_zero acc.amount)
  where
    add_zero : (a : ℤ) → a ≡ a +ℤ pos 0
    add_zero a = omega int_laws
degraded_subtotal_total acc (l ∷ ls) (p, h) = rw (degraded_subtotal_same acc l ls p) (
    rw (degraded_subtotal_total (plus_line acc l) ls h)
      (ap (λ (a : ℤ). some (record acc { amount = a })) (add_to_total _ _ _)))

degraded_subtotal_mixed :
    (acc : Money) (ls : List HydratedLine)
    → ¬ All (InCurrency acc.currency) ls
    → degraded_subtotal acc ls ≡ none
unfolding degraded_subtotal add_money multiply_money
degraded_subtotal_mixed acc [] h = absurd (h tt)
degraded_subtotal_mixed acc (l ∷ ls) h = elim (String-cases acc.currency l.unit_price.currency) [
  | inl same ↦
      rw (degraded_subtotal_same acc l ls (sym same))
        (degraded_subtotal_mixed (plus_line acc l) ls (λ all. h (sym same, all)))
  | inr other ↦ rw (str_eq_ne acc.currency l.unit_price.currency other, degraded_subtotal) refl
]

module _ (get_variants : List String → List Variant)
    (calculate : CalculateRequest → Option PricedCart) (now : ℕ) (cart : StoredCart)
    (version : ℤ) where
  -- When pricing-engine fails and every line is in the cart's currency, the cart is shown with every
  -- line at list price: its total and its subtotal are the sum of quantity times unit price, it is
  -- marked as degraded and has no rules version.
  pub price_degraded :
      calculate (calculate_request cart (hydrate get_variants cart)) ≡ none
      → All (InCurrency cart.currency) (hydrate get_variants cart)
      → (c : Cart) × (price get_variants calculate now cart version ≡ some c)
        × (c.total.amount ≡ list_total (hydrate get_variants cart))
        × (c.subtotal ≡ c.total)
        × (c.pricing_degraded ≡ true)
        × (c.rules_version ≡ none)
        × (length c.lines ≡ length (hydrate get_variants cart))
  unfolding price degraded_cart zero_money
  price_degraded failed same =
      let subtotal =
        degraded_subtotal_total (zero_money cart.currency) (hydrate get_variants cart) same in
      let total : Money = record {
        amount = pos 0 +ℤ list_total (hydrate get_variants cart);
        currency = cart.currency;
      } in
      (
        degraded_with now cart (hydrate get_variants cart) version total,
        rw failed (rw (subtotal, degraded_cart) refl),
        zero_add _,
        refl,
        refl,
        refl,
        length-map {0, 0} (hydrate get_variants cart) degraded_line,
      )
    where
      zero_add : (a : ℤ) → pos 0 +ℤ a ≡ a
      zero_add a = omega int_laws

  -- When pricing-engine fails and some line is not in the cart's currency, no cart is shown: the
  -- fallback throws.
  pub price_mixed :
      calculate (calculate_request cart (hydrate get_variants cart)) ≡ none
      → ¬ All (InCurrency cart.currency) (hydrate get_variants cart)
      → price get_variants calculate now cart version ≡ none
  unfolding price degraded_cart zero_money
  price_mixed failed mixed = rw failed (
      rw
        (
          degraded_subtotal_mixed (zero_money cart.currency) (hydrate get_variants cart) mixed,
          degraded_cart,
        )
        refl)

priced_lines_from :
    (vs : List Variant) (ps : List PricedLine) (stored : List StoredLine) (j i n : ℕ)
    (ls : List StoredLine) {s : StoredLine}
    → j + i ≡ n
    → All (λ (l : StoredLine). by_sku vs l.sku ≢ none) ls
    → get_elem? ls i ≡ some s
    → (v : Variant) × (by_sku vs s.sku ≡ some v)
      × (get_elem? (priced_lines ps stored j (hydrate_lines vs ls)) i
          ≡ some (priced_line (get_elem? ps n) (get_elem? stored n) (hydrated s v)))
unfolding priced_lines hydrate_lines
priced_lines_from vs ps stored j i n [] e h at = cc
priced_lines_from vs ps stored j zero n (l ∷ ls) {s} e (has, h) at =
    elim (Option-cases (by_sku vs l.sku)) [
      | inl gone ↦ absurd (has gone)
      | inr (v, found) ↦
          let same : l ≡ s = cc at in
          let here : j ≡ n = omega arith in
          (v, rw (← same) found, rw (found, hydrate_lines) (rw here (rw same refl)))
    ]
priced_lines_from vs ps stored j (suc i) n (l ∷ ls) e (has, h) at =
    elim (Option-cases (by_sku vs l.sku)) [
      | inl gone ↦ absurd (has gone)
      | inr (v, found) ↦
          let (w, has_w, rest) = priced_lines_from vs ps stored (suc j) i n ls (omega arith) h at in
          (w, has_w, rw (found, hydrate_lines) rest)
    ]

-- When every product of a cart is known, each priced line is the stored line at its index, and
-- `priceChanged` says whether its effective price differs from the price at which that line was
-- added.
pub priced_lines_aligned :
    (vs : List Variant) (ps : List PricedLine) (stored : List StoredLine) (i : ℕ) {s : StoredLine}
    → All (λ (l : StoredLine). by_sku vs l.sku ≢ none) stored
    → get_elem? stored i ≡ some s
    → (c : CartLine) × (get_elem? (priced_lines ps stored 0 (hydrate_lines vs stored)) i ≡ some c)
      × (c.sku ≡ s.sku)
      × (c.quantity ≡ s.quantity)
      × (c.price_changed ≡ not (ℤ_eq c.unit_price.amount s.added_at_price))
unfolding priced_line
priced_lines_aligned vs ps stored i {s} h at =
    let (v, found, e) = priced_lines_from vs ps stored 0 i i stored (omega arith) h at in
    (_, e, refl, refl, rw at)

-- When the product of the first line is gone and that of the second is known, the second line is
-- shown first, and its `priceChanged` is decided by the price at which the dropped line had been
-- added.
pub priced_lines_dropped :
    (vs : List Variant) (ps : List PricedLine) (gone l : StoredLine) (ls : List StoredLine)
    (v : Variant)
    → by_sku vs gone.sku ≡ none
    → by_sku vs l.sku ≡ some v
    → (c : CartLine) × (get_elem?
          (priced_lines ps (gone ∷ l ∷ ls) 0 (hydrate_lines vs (gone ∷ l ∷ ls)))
          0
        ≡ some c)
      × (c.sku ≡ l.sku)
      × (c.price_changed ≡ not (ℤ_eq c.unit_price.amount gone.added_at_price))
unfolding priced_lines priced_line hydrate_lines
priced_lines_dropped vs ps gone l ls v no_product found = (
  priced_line (get_elem? ps 0) (some gone) (hydrated l v),
  rw (no_product, hydrate_lines) (rw (found, hydrate_lines) refl),
  refl,
  refl,
)
