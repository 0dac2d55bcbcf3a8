-- ===== src/Tests/Lines.antt =====
-- The lines of a cart at concrete data (services/cart-service/src/cart.ts).
use ecomerce_microservices_o.Prelude.{ℕ, ◌≡◌, refl, List, [], ◌∷◌, some, arith, max, All}
use ecomerce_microservices_o.Prelude.Int.{pos}
use ecomerce_microservices_o.Cart.Types.{StoredLine}
use ecomerce_microservices_o.Cart.Lines.{add_to_lines, update_lines, merge_lines, find_line}
use ecomerce_microservices_o.Cart.Lines.Quantity.{quantity_of}
use ecomerce_microservices_o.Cart.Lines.IsValid.{IsValid, InRange, add_to_lines-IsValid}
use ecomerce_microservices_o.Cart.Lines.Merge.{quantity_of-merge_lines}

abbrev of_sku : ℕ → StoredLine
of_sku q = record {
  sku = "mug";
  product_id = "p1";
  quantity = q;
  added_at_price = pos 450;
  added_at = 7;
}

abbrev mugs : List StoredLine
mugs = of_sku 60 ∷ []

abbrev tea : StoredLine
tea = record { sku = "tea"; product_id = "p2"; quantity = 5; added_at_price = pos 90; added_at = 8 }

abbrev anon_lines : List StoredLine
anon_lines = of_sku 70 ∷ tea ∷ []

mugs-IsValid : IsValid mugs
unfolding find_line
mugs-IsValid = record {
  fits = omega arith;
  in_range = ((omega arith, omega arith), tt);
  distinct = (refl, tt);
}

anon-InRange : All InRange anon_lines
anon-InRange = ((omega arith, omega arith), ((omega arith, omega arith), tt))

added : add_to_lines (of_sku 50) mugs ≡ some (of_sku 99 ∷ [])
unfolding add_to_lines
added = refl

updated : update_lines "mug" 0 mugs ≡ some []
unfolding update_lines
updated = refl

merged : merge_lines mugs anon_lines ≡ of_sku 70 ∷ tea ∷ []
unfolding merge_lines
merged = refl

add_to_lines-IsValid_example : IsValid (of_sku 99 ∷ [])
add_to_lines-IsValid_example =
    add_to_lines-IsValid (of_sku 50) mugs (omega arith) mugs-IsValid added

quantity_of-merge_lines_example :
    quantity_of "mug" (merge_lines mugs anon_lines)
    ≡ max (quantity_of "mug" mugs) (quantity_of "mug" anon_lines)
unfolding find_line
quantity_of-merge_lines_example =
    quantity_of-merge_lines "mug" mugs anon_lines mugs-IsValid anon-InRange (refl, (refl, tt))
      (omega arith)
