-- ===== src/Variants.antt =====
-- The variant picker of a product page
-- (apps/storefront/src/components/catalog/variant-picker.tsx). An attribute map is the list of its
-- entries, and amounts are whole numbers.
pub mod Choice
use ecomerce_microservices_o.Prelude.{
  ℕ, suc, Bool, true, false, not, ◌&&◌, ◌||◌, String, List, [], ◌∷◌, ◌++◌, Option, none, some, leb,
  ltb, if◌then◌else◌, str_eq, includes,
}

abbrev pub Attributes : Type 0
Attributes = List (String × String)

-- What the picker reads of a `ProductVariant`; `available` is null when it is not known.
pub record ProductVariant : Type 0 where
  pub sku : String
  pub attributes : Attributes
  pub price : ℕ
  pub available : Option ℕ

-- `attributes[key] === value`
unfoldable pub has_value : String → String → Attributes → Bool
has_value key value [] = false
has_value key value ((k, v) ∷ attributes) =
    let rest = has_value key value attributes in if str_eq k key then str_eq v value else rest

abbrev pub is_nonempty : Attributes → Bool
is_nonempty [] = false
is_nonempty (_ ∷ _) = true

unfoldable pub filter_variants : (ProductVariant → Bool) → List ProductVariant → List ProductVariant
filter_variants test [] = []
filter_variants test (v ∷ vs) =
    let rest = filter_variants test vs in if test v then v ∷ rest else rest

-- selectable
unfoldable pub selectable : List ProductVariant → List ProductVariant
selectable variants = filter_variants (λ v. is_nonempty v.attributes) variants

-- The values of one axis, and the axes in the order in which they are met.
abbrev pub add_to_axis : String → String → List (String × List String) → List (String × List String)
add_to_axis key value [] = (key, value ∷ []) ∷ []
add_to_axis key value ((k, values) ∷ rest) =
    let later = (k, values) ∷ add_to_axis key value rest in
    let kept = if includes value values then values else values ++ value ∷ [] in
    if str_eq k key then (k, kept) ∷ rest else later

abbrev pub add_attributes : Attributes → List (String × List String) → List (String × List String)
add_attributes [] out = out
add_attributes ((k, v) ∷ attributes) out = add_attributes attributes (add_to_axis k v out)

unfoldable pub axes :
    List ProductVariant → List (String × List String) → List (String × List String)
axes [] out = out
axes (v ∷ vs) out = axes vs (add_attributes v.attributes out)

-- `available === null || available > 0`
abbrev pub may_be_bought : Option ℕ → Bool
may_be_bought none = true
may_be_bought (some n) = ltb 0 n

-- The first of the cheapest: the sort is stable.
abbrev pub cheapest : ProductVariant → List ProductVariant → ProductVariant
cheapest best [] = best
cheapest best (v ∷ vs) = cheapest (if ltb v.price best.price then v else best) vs

abbrev pub first_cheapest : List ProductVariant → Option ProductVariant
first_cheapest [] = none
first_cheapest (v ∷ vs) = some (cheapest v vs)

abbrev pub head_of : List ProductVariant → Option ProductVariant
head_of [] = none
head_of (v ∷ vs) = some v

abbrev pub or_first : Option ProductVariant → List ProductVariant → Option ProductVariant
or_first none vs = head_of vs
or_first (some v) vs = some v

abbrev pub attributes_of : Option ProductVariant → Attributes
attributes_of none = []
attributes_of (some v) = v.attributes

-- The selection that the picker opens on
unfoldable pub initial_selection : List ProductVariant → Attributes
initial_selection variants =
    attributes_of (
      or_first (first_cheapest (filter_variants (λ v. may_be_bought v.available) variants))
        variants)

-- `Object.entries(selected).every(…)`
unfoldable pub agrees : Attributes → Attributes → Bool
agrees [] attributes = true
agrees ((k, v) ∷ selected) attributes = has_value k v attributes && agrees selected attributes

-- `selectable.find(…)`
unfoldable pub find_variant : Attributes → List ProductVariant → Option ProductVariant
find_variant selected [] = none
find_variant selected (v ∷ vs) =
    let rest = find_variant selected vs in if agrees selected v.attributes then some v else rest

-- How many entries of the selection other than the axis a variant agrees with.
unfoldable pub score : String → Attributes → Attributes → ℕ
score axis [] attributes = 0
score axis ((k, v) ∷ selected) attributes =
    let rest = score axis selected attributes in
    if not (str_eq k axis) && has_value k v attributes then suc rest else rest

-- The `reduce`, which keeps the first of the best
abbrev pub best_of : (ProductVariant → ℕ) → ProductVariant → List ProductVariant → ProductVariant
best_of mark best [] = best
best_of mark best (v ∷ vs) = best_of mark (if ltb (mark best) (mark v) then v else best) vs

abbrev pub choose_among : String → Attributes → List ProductVariant → Attributes
choose_among axis selected [] = selected
choose_among axis selected (v ∷ vs) =
    (best_of (λ w. score axis selected w.attributes) v vs).attributes

-- choose: the new selection
unfoldable pub choose : List ProductVariant → String → String → Attributes → Attributes
choose variants axis value selected =
    choose_among axis selected (filter_variants (λ v. has_value axis value v.attributes) variants)
