-- ===== src/Products/Leads.antt =====
-- Which variant a card and a product page lead with
-- (apps/storefront/src/components/catalog/product-card.tsx and variant-picker.tsx, and
-- app/products/[slug]/page.tsx).
use ecomerce_microservices_o.Prelude.{
  ℕ, ◌≡◌, ◌↔◌, refl, ap, ◌∙◌, Bool, true, false, ◌||◌, List, [], ◌∷◌, Option, none, some, inl, inr,
  All, arith,
}
use ecomerce_microservices_o.Variants.{
  ProductVariant, is_nonempty, filter_variants, selectable, may_be_bought, or_first, attributes_of,
  initial_selection, agrees, find_variant,
}
use ecomerce_microservices_o.Variants.Choice.{IsIn, IsMap, agrees_self, find_variant-only}
use ecomerce_microservices_o.Products.{
  Variant, Product, cheapest_from, cheapest_of, some_bought, from_product,
}
use ecomerce_microservices_o.Products.Cheapest.{
  IsAtLeast, picked_from, cheapest_from-IsAtLeast, cheapest-map, first_cheapest-whole,
  cheapest_from-IsIn,
}

-- A variant that is known to be sold out.
abbrev pub IsSoldOut : Variant → Type 0
IsSoldOut v = v.variant.available ≡ some 0

neither : (a b : Bool) → a || b ≡ false → (a ≡ false) × (b ≡ false)
neither true b e = absurd (cc e)
neither false b e = (refl, e)

known_zero : (available : Option ℕ) → may_be_bought available ≡ false → available ≡ some 0
known_zero none e = absurd (cc e)
known_zero (some n) e = ap some (ground arith)

IsSoldOut-iff : (vs : List Variant) → (some_bought vs ≡ false) ↔ All IsSoldOut vs
unfolding some_bought
IsSoldOut-iff [] = (λ h. tt, λ h. refl)
IsSoldOut-iff (v ∷ vs) = (
  λ h.
      let (mine, theirs) = neither (may_be_bought v.variant.available) (some_bought vs) h in
      (known_zero v.variant.available mine, (IsSoldOut-iff vs).0 theirs),
  λ h. rw h.0 ((IsSoldOut-iff vs).1 h.1),
)

-- A variant that has attributes, as the picker wants it.
abbrev pub HasAttributes : Variant → Type 0
HasAttributes v = is_nonempty v.variant.attributes ≡ true

selectable-All :
    (vs : List Variant) → All HasAttributes vs → selectable (picked_from vs) ≡ picked_from vs
unfolding selectable filter_variants
selectable-All [] h = refl
selectable-All (v ∷ vs) (has, h) = rw has (ap (λ xs. v.variant ∷ xs) (selectable-All vs h))

IsIn-picked_from : (w : Variant) (vs : List Variant) → IsIn w vs → IsIn w.variant (picked_from vs)
IsIn-picked_from w [] h = h
IsIn-picked_from w (v ∷ vs) (inl is) = inl (ap (λ (x : Variant). x.variant) is)
IsIn-picked_from w (v ∷ vs) (inr later) = inr (IsIn-picked_from w vs later)

All-picked_from :
    (P : ProductVariant → Type 0) (vs : List Variant)
    → All (λ v. P v.variant) vs
    → All P (picked_from vs)
All-picked_from P [] h = tt
All-picked_from P (v ∷ vs) (p, h) = (p, All-picked_from P vs h)

-- The card of a product with variants shows the price of one of them, none of the variants, inactive
-- ones included, has a lower price, and the card is dimmed exactly when every variant is known to be
-- sold out.
pub from_product-cheapest :
    (p : Product) (v : Variant) (vs : List Variant)
    → p.variants ≡ v ∷ vs
    → ((w : Variant) × IsIn w (v ∷ vs)
        × ((from_product p).price ≡ w.variant.price)
        × All (IsAtLeast w.variant.price) (v ∷ vs))
      × (((from_product p).in_stock ≡ false) ↔ All IsSoldOut (v ∷ vs))
unfolding from_product cheapest_of
from_product-cheapest p v vs is = rw is (
  (
    cheapest_from v vs,
    cheapest_from-IsIn v vs,
    refl,
    cheapest_from-IsAtLeast v (cheapest_from v vs) vs refl,
  ),
  IsSoldOut-iff (v ∷ vs),
)

initial_selection-attributes :
    (v : Variant) (vs : List Variant)
    → All HasAttributes (v ∷ vs)
    → may_be_bought (cheapest_from v vs).variant.available ≡ true
    → initial_selection (selectable (picked_from (v ∷ vs)))
      ≡ (cheapest_from v vs).variant.attributes
unfolding initial_selection
initial_selection-attributes v vs has buyable = rw (selectable-All (v ∷ vs) has) (
    ap (λ first. attributes_of (or_first first (picked_from (v ∷ vs))))
      (first_cheapest-whole (λ w. may_be_bought w.available) v.variant (picked_from vs)
        (ap (λ w. may_be_bought w.available) (cheapest-map v vs) ∙ buyable))
    ∙ ap (λ w. w.attributes) (cheapest-map v vs))

-- No variant but the one given has all the attributes that it has.
abbrev pub IsOnly : Variant → List Variant → Type 0
IsOnly w vs =
    All (λ v. agrees w.variant.attributes v.variant.attributes ≡ true → v.variant ≡ w.variant) vs

-- When all the variants have attributes, and the one whose price the page leads with is not known to be
-- sold out, has attributes with distinct keys and is the only one with all of them, the picker of a
-- product page opens with that variant selected and shown.
pub initial_selection-led :
    (v : Variant) (vs : List Variant)
    → All HasAttributes (v ∷ vs)
    → may_be_bought (cheapest_from v vs).variant.available ≡ true
    → IsMap (cheapest_from v vs).variant.attributes
    → IsOnly (cheapest_from v vs) (v ∷ vs)
    → find_variant
        (initial_selection (selectable (picked_from (v ∷ vs))))
        (selectable (picked_from (v ∷ vs)))
      ≡ some (cheapest_from v vs).variant
initial_selection-led v vs has buyable keys only =
    let led = cheapest_from v vs in
    rw (initial_selection-attributes v vs has buyable) (
      rw (selectable-All (v ∷ vs) has) (
        find_variant-only led.variant led.variant.attributes (picked_from (v ∷ vs))
          (IsIn-picked_from led (v ∷ vs) (cheapest_from-IsIn v vs))
          (agrees_self led.variant.attributes keys)
          (All-picked_from
            (λ w. agrees led.variant.attributes w.attributes ≡ true → w ≡ led.variant) (v ∷ vs)
            only)))
