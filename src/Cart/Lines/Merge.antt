-- ===== src/Cart/Lines/Merge.antt =====
-- What merging an anonymous cart into a user's cart does to the quantities
-- (services/cart-service/src/cart.ts, merge).
use ecomerce_microservices_o.Prelude.{
  ◌+◌, ◌≤◌, ◌<◌, ◌≡◌, refl, String, List, [], ◌∷◌, none, max, arith, eq_iff, length, length-append,
  if◌then◌else◌, str_eq, All,
}
use ecomerce_microservices_o.Cart.Types.{StoredLine, max_lines, max_qty_per_line}
use ecomerce_microservices_o.Cart.Lines.{find_line, clamp, merge_line, merge_lines}
use ecomerce_microservices_o.Cart.Lines.Quantity.{quantity_of, quantity_of-merge_line}
use ecomerce_microservices_o.Cart.Lines.IsValid.{
  InRange, IsDistinct, IsValid, length-set_quantity, merge_line-IsValid,
}

quantity_of-le :
    (k : String) (ls : List StoredLine) → All InRange ls → quantity_of k ls ≤ max_qty_per_line
unfolding find_line
quantity_of-le k [] h = omega arith
quantity_of-le k (l ∷ ls) h = ground (arith, quantity_of-le k ls h.1)

length-merge_line :
    (ls : List StoredLine) (line : StoredLine) → length (merge_line ls line) ≤ length ls + 1
unfolding merge_line
length-merge_line ls line = ground (
  arith,
  length-set_quantity line.sku (λ q. clamp (max q line.quantity)) ls,
  length-append {0} ls (line ∷ []),
)

quantity_of-cons :
    (k : String) (l : StoredLine) (ls : List StoredLine)
    → quantity_of k (l ∷ ls) ≡ (if str_eq l.sku k then l.quantity else quantity_of k ls)
unfolding find_line
quantity_of-cons k l ls = ground arith

quantity_of-merge_lines_step :
    (k : String) (m : List StoredLine) (l : StoredLine) (ls : List StoredLine)
    → IsValid m
    → InRange l
    → find_line l.sku ls ≡ none
    → length m < max_lines
    → max (quantity_of k (merge_line m l)) (quantity_of k ls)
      ≡ max (quantity_of k m) (quantity_of k (l ∷ ls))
quantity_of-merge_lines_step k m l ls v r n room = ground (
  arith,
  eq_iff k l.sku,
  eq_iff l.sku k,
  quantity_of-merge_line k m l,
  quantity_of-cons k l ls,
  quantity_of-le k m v.in_range,
)

-- When the user's lines are valid, the anonymous ones are in range with no sku twice, and both fit
-- in one cart, the merged quantity of every sku is the larger of the two.
pub quantity_of-merge_lines :
    (k : String) (ls anon : List StoredLine)
    → IsValid ls
    → All InRange anon
    → IsDistinct anon
    → length ls + length anon ≤ max_lines
    → quantity_of k (merge_lines ls anon) ≡ max (quantity_of k ls) (quantity_of k anon)
unfolding merge_lines
quantity_of-merge_lines k ls [] v r d room = ground (arith, quantity_of_nil)
  where
    quantity_of_nil : quantity_of k [] ≡ 0
    quantity_of_nil = unfold find_line in refl
quantity_of-merge_lines k ls (l ∷ anon) v r d room =
    let step = quantity_of-merge_lines_step k ls l anon v r.0 d.0 (omega arith) in
    let rest =
      quantity_of-merge_lines k (merge_line ls l) anon (merge_line-IsValid ls l r.0 v) r.1 d.1
        (omega (arith, length-merge_line ls l)) in
    omega (arith, step, rest)

merge_line_bounds :
    (k : String) (m : List StoredLine) (l : StoredLine) (ls : List StoredLine)
    → IsValid m
    → InRange l
    → find_line l.sku ls ≡ none
    → (quantity_of k m ≤ quantity_of k (merge_line m l))
      × (max (quantity_of k (merge_line m l)) (quantity_of k ls)
          ≤ max (quantity_of k m) (quantity_of k (l ∷ ls)))
merge_line_bounds k m l ls v r n = ground (
  arith,
  eq_iff k l.sku,
  eq_iff l.sku k,
  quantity_of-merge_line k m l,
  quantity_of-cons k l ls,
  quantity_of-le k m v.in_range,
)

-- When the user's lines are valid and the anonymous ones are in range with no sku twice, also if
-- they do not all fit, no quantity of the user's cart falls, and no merged quantity exceeds the
-- larger of the two.
pub merge_lines_bounds :
    (k : String) (ls anon : List StoredLine)
    → IsValid ls
    → All InRange anon
    → IsDistinct anon
    → (quantity_of k ls ≤ quantity_of k (merge_lines ls anon))
      × (quantity_of k (merge_lines ls anon) ≤ max (quantity_of k ls) (quantity_of k anon))
unfolding merge_lines
merge_lines_bounds k ls [] v r d = omega arith
merge_lines_bounds k ls (l ∷ anon) v r d =
    let step = merge_line_bounds k ls l anon v r.0 d.0 in
    let rest =
      merge_lines_bounds k (merge_line ls l) anon (merge_line-IsValid ls l r.0 v) r.1 d.1 in
    omega (arith, step, rest)
