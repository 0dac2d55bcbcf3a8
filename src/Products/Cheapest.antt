-- ===== src/Products/Cheapest.antt =====
-- The cheapest of some variants, and of those that a test lets through
-- (apps/storefront/src/components/catalog/product-card.tsx and variant-picker.tsx).
use ecomerce_microservices_o.Prelude.{
  ℕ, ◌≤◌, ◌≡◌, refl, sym, ap, ◌∙◌, Bool, true, false, List, [], ◌∷◌, some, ltb, ltb→lt, lt→ltb,
  if◌then◌else◌, Bool-cases, inl, inr, All, map, arith,
}
use ecomerce_microservices_o.Variants.{ProductVariant, filter_variants, cheapest, first_cheapest}
use ecomerce_microservices_o.Variants.Choice.{IsIn, pick-IsIn}
use ecomerce_microservices_o.Products.{Variant, cheapest_from}

abbrev pub IsAtLeast : ℕ → Variant → Type 0
IsAtLeast price v = price ≤ v.variant.price

cheapest_from-below :
    (a b : Variant) (vs : List Variant) (t : Bool)
    → ltb b.variant.price a.variant.price ≡ t
    → cheapest_from a (b ∷ vs) ≡ cheapest_from (if t then b else a) vs
unfolding cheapest_from
cheapest_from-below a b vs t e = ap (λ u. cheapest_from (if u then b else a) vs) e

pub cheapest_from-IsAtLeast :
    (a m : Variant) (vs : List Variant)
    → cheapest_from a vs ≡ m
    → (m.variant.price ≤ a.variant.price) × All (IsAtLeast m.variant.price) vs
cheapest_from-IsAtLeast a m [] e =
    (unfold cheapest_from in omega (arith, ap (λ x. x.variant.price) e), tt)
cheapest_from-IsAtLeast a m (b ∷ vs) e = elim (Bool-cases (ltb b.variant.price a.variant.price)) [
  | inl below ↦
      let (at_least, rest) =
        cheapest_from-IsAtLeast b m vs (sym (cheapest_from-below a b vs true below) ∙ e) in
      (omega (arith, at_least, ltb→lt b.variant.price a.variant.price below), (at_least, rest))
  | inr above ↦
      let (at_least, rest) =
        cheapest_from-IsAtLeast a m vs (sym (cheapest_from-below a b vs false above) ∙ e) in
      let no_less : a.variant.price ≤ b.variant.price = ground arith in
      (at_least, (omega (arith, at_least, no_less), rest))
]

-- The picker reads the variants of the page.
abbrev pub picked_from : List Variant → List ProductVariant
picked_from vs = map (λ v. v.variant) vs

pub cheapest-map :
    (a : Variant) (vs : List Variant)
    → cheapest a.variant (picked_from vs) ≡ (cheapest_from a vs).variant
unfolding cheapest_from
cheapest-map a [] = refl
cheapest-map a (b ∷ vs) = elim (Bool-cases (ltb b.variant.price a.variant.price)) [
  | inl below ↦ rw (cheapest, cheapest_from, below) (cheapest-map b vs)
  | inr above ↦ rw (cheapest, cheapest_from, above) (cheapest-map a vs)
]

clash : {x : Bool} → x ≡ false → x ≡ true → ⊥
clash out kept = let e : true ≡ false = sym kept ∙ out in absurd (cc e)

-- What is the cheapest so far among the variants that a test lets through, and among all: the same,
-- or the latter is one that the test refuses.
data Ahead (test : ProductVariant → Bool) : ProductVariant → ProductVariant → Type 0 where
  same : (a : ProductVariant) → test a ≡ true → Ahead test a a
  past : (a b : ProductVariant) → test b ≡ false → b.price ≤ a.price → Ahead test a b

cheapest-filter :
    (test : ProductVariant → Bool) (a b : ProductVariant) (vs : List ProductVariant)
    → Ahead test a b
    → test (cheapest b vs) ≡ true
    → cheapest a (filter_variants test vs) ≡ cheapest b vs
unfolding filter_variants
cheapest-filter test a _ [] (same _ ok) let_through = refl
cheapest-filter test a b [] (past _ _ out le) let_through = absurd (clash out let_through)
cheapest-filter test a _ (c ∷ vs) (same _ ok) let_through =
    elim (Bool-cases (ltb c.price a.price)) [
      | inl below ↦ elim (Bool-cases (test c)) [
        | inl kept ↦ rw kept (
            rw (cheapest, below)
              (cheapest-filter test c c vs (same c kept) (rw (cheapest, below) at let_through)))
        | inr left_out ↦ rw left_out (
            rw (cheapest, below)
              (cheapest-filter test a c vs
                (past a c left_out (omega (arith, ltb→lt c.price a.price below)))
                (rw (cheapest, below) at let_through)))
      ]
      | inr above ↦ elim (Bool-cases (test c)) [
        | inl kept ↦ rw kept (
            rw (cheapest, above)
              (cheapest-filter test a a vs (same a ok) (rw (cheapest, above) at let_through)))
        | inr left_out ↦ rw left_out (
            rw (cheapest, above)
              (cheapest-filter test a a vs (same a ok) (rw (cheapest, above) at let_through)))
      ]
    ]
cheapest-filter test a b (c ∷ vs) (past _ _ out le) let_through =
    elim (Bool-cases (ltb c.price b.price)) [
      | inl below ↦ elim (Bool-cases (test c)) [
        | inl kept ↦
            let cheaper : ltb c.price a.price ≡ true =
              lt→ltb c.price a.price (omega (arith, ltb→lt c.price b.price below, le)) in
            rw kept (
              rw (cheapest, below)
                (rw (cheapest, cheaper)
                  (cheapest-filter test c c vs (same c kept)
                    (rw (cheapest, below) at let_through))))
        | inr left_out ↦ rw left_out (
            rw (cheapest, below)
              (cheapest-filter test a c vs
                (past a c left_out (omega (arith, ltb→lt c.price b.price below, le)))
                (rw (cheapest, below) at let_through)))
      ]
      | inr above ↦ elim (Bool-cases (test c)) [
        | inl kept ↦ elim (Bool-cases (ltb c.price a.price)) [
          | inl nearer ↦ rw kept (
              rw (cheapest, above)
                (rw (cheapest, nearer)
                  (cheapest-filter test c b vs (past c b out (ground arith))
                    (rw (cheapest, above) at let_through))))
          | inr farther ↦ rw kept (
              rw (cheapest, above)
                (rw (cheapest, farther)
                  (cheapest-filter test a b vs (past a b out le)
                    (rw (cheapest, above) at let_through))))
        ]
        | inr left_out ↦ rw left_out (
            rw (cheapest, above)
              (cheapest-filter test a b vs (past a b out le) (rw (cheapest, above) at let_through)))
      ]
    ]

first_cheapest-filter :
    (test : ProductVariant → Bool) (b : ProductVariant) (vs : List ProductVariant)
    → test b ≡ false
    → test (cheapest b vs) ≡ true
    → first_cheapest (filter_variants test vs) ≡ some (cheapest b vs)
unfolding filter_variants
first_cheapest-filter test b [] out let_through = absurd (clash out let_through)
first_cheapest-filter test b (c ∷ vs) out let_through = elim (Bool-cases (ltb c.price b.price)) [
  | inl below ↦ elim (Bool-cases (test c)) [
    | inl kept ↦ rw kept (
        rw (cheapest, below)
          (ap some
            (cheapest-filter test c c vs (same c kept) (rw (cheapest, below) at let_through))))
    | inr left_out ↦ rw left_out (
        rw (cheapest, below)
          (first_cheapest-filter test c vs left_out (rw (cheapest, below) at let_through)))
  ]
  | inr above ↦ elim (Bool-cases (test c)) [
    | inl kept ↦ rw kept (
        rw (cheapest, above)
          (ap some (
            cheapest-filter test c b vs (past c b out (ground arith))
              (rw (cheapest, above) at let_through))))
    | inr left_out ↦ rw left_out (
        rw (cheapest, above)
          (first_cheapest-filter test b vs out (rw (cheapest, above) at let_through)))
  ]
]

pub first_cheapest-whole :
    (test : ProductVariant → Bool) (b : ProductVariant) (vs : List ProductVariant)
    → test (cheapest b vs) ≡ true
    → first_cheapest (filter_variants test (b ∷ vs)) ≡ some (cheapest b vs)
unfolding filter_variants
first_cheapest-whole test b vs let_through = elim (Bool-cases (test b)) [
  | inl kept ↦ rw kept (ap some (cheapest-filter test b b vs (same b kept) let_through))
  | inr left_out ↦ rw left_out (first_cheapest-filter test b vs left_out let_through)
]

pub cheapest_from-IsIn : (v : Variant) (vs : List Variant) → IsIn (cheapest_from v vs) (v ∷ vs)
unfolding cheapest_from
cheapest_from-IsIn v [] = inl refl
cheapest_from-IsIn v (w ∷ vs) =
    let better = ltb w.variant.price v.variant.price in
    pick-IsIn better (cheapest_from (if better then w else v) vs) v w vs
      (cheapest_from-IsIn (if better then w else v) vs)
